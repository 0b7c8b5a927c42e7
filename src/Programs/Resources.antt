-- ===== src/Programs/Resources.antt =====
-- What the programs of examples/src hold when they have started or have given up.
use quiet_lwip.Prelude.{
  ltb, ◌≡◌, ◌↔◌, refl, sym, subst, ap, ◌∙◌, List, Option, none, some, Bool, true, false, length,
  if◌then◌else◌, arith,
}
use quiet_lwip.Programs.{Text, Settings, Program, parse, wants_help}
use quiet_lwip.Programs.Main.{
  Config, netmask, gateway, Host, usage, failed, running, Started, at_start, create_interface,
  open_interface, start,
}

-- The configuration, if both profiles can be read and there are two devices.
abbrev pub configured : Program → Host → Settings → Option Config
configured p h s = elim (h.encoder_profile s.conf_path s.encoder_key) [
  | false ↦ none
  | true ↦ elim (h.decoder_profile s.conf_path s.decoder_key) [
    | false ↦ none
    | true ↦ elim (h.output_device) [
      | none ↦ none
      | some out ↦ elim (h.device_info out) [
        | none ↦ none
        | some out_info ↦ elim (h.input_device) [
          | none ↦ none
          | some device ↦ elim (h.device_info device) [
            | none ↦ none
            | some info ↦ some (record {
              encoder_profile = (s.conf_path, s.encoder_key);
              decoder_profile = (s.conf_path, s.decoder_key);
              encoder_device = out;
              encoder_sample_rate = out_info.default_sample_rate;
              encoder_latency = out_info.default_low_output_latency;
              decoder_device = device;
              decoder_sample_rate = info.default_sample_rate;
              decoder_latency = info.default_low_output_latency;
              encoder_sample_size = p.sample_size;
              decoder_sample_size = p.sample_size;
              hardware_addr = p.mac;
              ipaddr = p.ipaddr;
              netmask = netmask;
              gateway = gateway;
            })
          ]
        ]
      ]
    ]
  ]
]

-- How the start ends for a program whose arguments are right.
pub record Ends (p : Program) (h : Host) (s : Settings) (r : Started) : Type 0 where
  -- The configuration is freed in every case.
  pub conf_freed : r.conf ≡ false
  -- There is an interface exactly if the program runs, and it runs with the right configuration.
  pub runs :
      (c : Config)
      → (r.exit ≡ running c)
        ↔ ((h.initialize ≡ true) × (configured p h s ≡ some c) × (h.creates c ≡ true))
  pub has_interface :
      (c : Config) → r.exit ≡ running c → (r.interface ≡ true) × (r.portaudio ≡ true)
  -- PortAudio stays initialised where a profile or a device is missing.
  pub left_open :
      h.initialize ≡ true → configured p h s ≡ none → (r.exit ≡ failed) × (r.portaudio ≡ true)
  -- It is terminated where the interface could not be created.
  pub terminated :
      (c : Config)
      → configured p h s ≡ some c
      → h.creates c ≡ false
      → (r.exit ≡ failed) × (r.portaudio ≡ false) × (r.interface ≡ false)

open_interface_eq :
    (p : Program) (h : Host) (s : Settings)
    → open_interface p h s ≡ (
        if h.initialize
        then elim (configured p h s) [
          | none ↦ record at_start { portaudio = true }
          | some c ↦ create_interface h c (record at_start { portaudio = true; conf = true })
        ]
        else at_start)
unfolding open_interface
open_interface_eq p h s = ground arith

-- The end of a start whose configuration is known.
abbrev finished : Bool → Option Config → (Config → Bool) → Started
finished true none creates = record at_start { portaudio = true }
finished true (some c) creates =
    if creates c
    then record at_start { portaudio = true; exit = running c; interface = true }
    else at_start
finished false o creates = at_start

start-finished :
    (p : Program) (h : Host) (args : List Text) (s : Settings)
    → wants_help args ≡ false
    → parse p args p.defaults ≡ some s
    → ltb (length s.positionals) p.wanted ≡ false
    → start p h args ≡ finished h.initialize (configured p h s) h.creates
unfolding start
start-finished p h args s no_help parsed enough =
    rw (no_help, parsed, enough, start)
      (open_interface_eq p h s ∙ by_parts h.initialize (configured p h s))
  where
    by_parts :
        (i : Bool) (o : Option Config)
        → (if i
            then elim o [
              | none ↦ record at_start { portaudio = true }
              | some c ↦ create_interface h c (record at_start { portaudio = true; conf = true })
            ]
            else at_start)
          ≡ finished i o h.creates
    by_parts true none = refl
    by_parts true (some c) = refl
    by_parts false o = refl

running_inj : {c d : Config} → running c ≡ running d → c ≡ d
running_inj {c} e = ap (λ x. elim x [ usage ↦ c | failed ↦ c | running d ↦ d ]) e

finished-runs :
    (i : Bool) (o : Option Config) (creates : Config → Bool) (c : Config)
    → ((finished i o creates).exit ≡ running c) ↔ ((i ≡ true) × (o ≡ some c) × (creates c ≡ true))
finished-runs true none creates c = ((λ e. cc), λ e. cc)
finished-runs false o creates c = ((λ e. cc), λ e. cc)
finished-runs true (some d) creates c = (by_made (creates d) refl, λ e. ground (arith, e.1, e.2))
  where
    by_made :
        (made : Bool)
        → creates d ≡ made
        → (if made
            then record at_start { portaudio = true; exit = running d; interface = true }
            else at_start).exit
          ≡ running c
        → (true ≡ true) × (some d ≡ some c) × (creates c ≡ true)
    by_made true h e = let same = running_inj e in (refl, ap some same, ap creates (sym same) ∙ h)
    by_made false h e = cc

-- A program whose arguments are right, without `--help`, runs exactly if PortAudio starts, both
-- profiles can be read, there are two devices with their data and the interface can be created; it
-- runs with their configuration. However it ends, the configuration is freed. Where a profile or a
-- device is missing PortAudio is left initialised, and where the interface cannot be created it is
-- terminated.
pub start_lem :
    (p : Program) (h : Host) (args : List Text) (s : Settings)
    → wants_help args ≡ false
    → parse p args p.defaults ≡ some s
    → ltb (length s.positionals) p.wanted ≡ false
    → Ends p h s (start p h args)
start_lem p h args s no_help parsed enough =
    subst (Ends p h s) (sym (start-finished p h args s no_help parsed enough)) (record {
      conf_freed = ground arith;
      runs = finished-runs h.initialize (configured p h s) h.creates;
      has_interface = ground arith;
      left_open = λ i o. rw (i, o) (refl, refl);
      terminated = ground arith;
    })
