-- ===== src/Programs/Main.antt =====
-- The start of a `main` function of examples/src after its arguments.
use quiet_lwip.Prelude.{ℕ, ltb, List, Option, none, some, Bool, true, false, length, if◌then◌else◌}
use quiet_lwip.Programs.{Text, Settings, Program, parse, wants_help}

-- `PaDeviceInfo`, as far as it is read.
pub record DeviceInfo : Type 0 where
  pub default_sample_rate : ℕ
  pub default_low_output_latency : ℕ

abbrev pub netmask : ℕ
netmask = 0xffffff00

abbrev pub gateway : ℕ
gateway = 0xc0a80001

-- `quiet_lwip_portaudio_driver_config`, with the addresses beside it before `htonl`.
pub record Config : Type 0 where
  pub encoder_profile : Option Text × Text
  pub decoder_profile : Option Text × Text
  pub encoder_device : ℕ
  pub encoder_sample_rate : ℕ
  pub encoder_latency : ℕ
  pub decoder_device : ℕ
  pub decoder_sample_rate : ℕ
  pub decoder_latency : ℕ
  pub encoder_sample_size : ℕ
  pub decoder_sample_size : ℕ
  pub hardware_addr : List ℕ
  pub ipaddr : ℕ
  pub netmask : ℕ
  pub gateway : ℕ

-- The libraries on a computer.
pub record Host : Type 0 where
  pub initialize : Bool  -- `Pa_Initialize` gives paNoError
  pub encoder_profile : Option Text → Text → Bool  -- the profile of a file and a key can be read
  pub decoder_profile : Option Text → Text → Bool
  pub output_device : Option ℕ  -- none is paNoDevice
  pub input_device : Option ℕ
  pub device_info : ℕ → Option DeviceInfo
  pub creates : Config → Bool  -- `quiet_lwip_portaudio_create` gives an interface

-- How the start ends.
pub data Exit : Type 0 where
  usage : Exit  -- return 0 after the help
  failed : Exit  -- return 1
  running : Config → Exit  -- the interface and its threads are there

-- With PortAudio, the configuration and the interface that are then in use.
pub record Started : Type 0 where
  pub exit : Exit
  pub portaudio : Bool
  pub conf : Bool
  pub interface : Bool

abbrev pub at_start : Started
at_start = record { exit = failed; portaudio = false; conf = false; interface = false }

-- `free(conf); return 1;`
abbrev pub give_up : Started → Started
give_up r = record r { conf = false; exit = failed }

-- `quiet_lwip_portaudio_create`, `free(conf)`, and `Pa_Terminate` where there is no interface.
abbrev pub create_interface : Host → Config → Started → Started
create_interface h c r =
    let freed = record r { conf = false } in
    if h.creates c
    then record freed { exit = running c; interface = true }
    else record freed { exit = failed; portaudio = false }

-- From `Pa_GetDefaultInputDevice` on.
abbrev pub with_input : Program → Host → Settings → ℕ → DeviceInfo → Started → Started
with_input p h s out out_info r = elim (h.input_device) [
  | none ↦ give_up r
  | some device ↦ elim (h.device_info device) [
    | none ↦ give_up r
    | some info ↦
        create_interface h
          (record {
            encoder_profile = (s.conf_path, s.encoder_key);
            decoder_profile = (s.conf_path, s.decoder_key);
            encoder_device = out;
            encoder_sample_rate = out_info.default_sample_rate;
            encoder_latency = out_info.default_low_output_latency;
            decoder_device = device;
            decoder_sample_rate = info.default_sample_rate;
            decoder_latency = info.default_low_output_latency;
            encoder_sample_size = p.sample_size;
            decoder_sample_size = p.sample_size;
            hardware_addr = p.mac;
            ipaddr = p.ipaddr;
            netmask = netmask;
            gateway = gateway;
          })
          r
  ]
]

-- From `Pa_GetDefaultOutputDevice` on.
abbrev pub with_output : Program → Host → Settings → Started → Started
with_output p h s r = elim (h.output_device) [
  | none ↦ give_up r
  | some out ↦ elim (h.device_info out) [
    | none ↦ give_up r
    | some out_info ↦ with_input p h s out out_info r
  ]
]

-- From `calloc` of the configuration on.
abbrev pub with_profiles : Program → Host → Settings → Started → Started
with_profiles p h s r =
    if h.encoder_profile s.conf_path s.encoder_key
    then if h.decoder_profile s.conf_path s.decoder_key then with_output p h s r else give_up r
    else give_up r

-- From `Pa_Initialize` on.
unfoldable pub open_interface : Program → Host → Settings → Started
open_interface p h s =
    if h.initialize
    then with_profiles p h s (record at_start { portaudio = true; conf = true })
    else at_start

-- The start of `main` with its arguments after the program's name.
unfoldable pub start : Program → Host → List Text → Started
unfolding parse open_interface
start p h args =
    if wants_help args then record at_start { exit = usage } else elim (parse p args p.defaults) [
      | none ↦ at_start
      | some s ↦ if ltb (length s.positionals) p.wanted then at_start else open_interface p h s
    ]
