-- ===== src/Driver/Lifecycle.antt =====
-- The set-up and the tear-down of an interface in src/driver.c and src/driver_portaudio.c: what is
-- allocated, opened and running. `malloc` and `pthread_create` are taken to succeed, as the code does.
-- libquiet's devices and the C library are here by their rules of use alone: a device or a block is
-- used after it is made and until it is destroyed, and a thread is joined once.
pub mod Owned
mod Tests
use quiet_lwip.Prelude.{
  ℕ, ◌+◌, Bool, true, false, not, ◌==◌, if◌then◌else◌, Outcome, done, blocked, fault, ◌>>=◌,
}

-- An encoder or a decoder.
pub data Device : Type 0 where
  absent : Device
  opened : Device
  closed : Device
  destroyed : Device

-- The thread of `read_loop`.
pub data Thread : Type 0 where
  unstarted : Thread
  running : Thread
  joined : Thread

-- An interface with its driver. `allocated`, `driver`, `send_temp` and `recv_temp` tell whether the
-- block of memory is allocated; `listed` and `up` are the interface in lwIP.
pub record Interface : Type 0 where
  pub allocated : Bool
  pub listed : Bool
  pub up : Bool
  pub driver : Bool
  pub send_temp : Bool
  pub recv_temp : Bool
  pub encoder : Device
  pub decoder : Device
  pub thread : Thread

-- `malloc(sizeof(quiet_lwip_interface))`
abbrev pub fresh_interface : Interface
fresh_interface = record {
  allocated = true;
  listed = false;
  up = false;
  driver = false;
  send_temp = false;
  recv_temp = false;
  encoder = absent;
  decoder = absent;
  thread = unstarted;
}

-- `quiet_encoder_destroy` and `quiet_encoder_close`: neither is allowed on a destroyed encoder.
unfoldable pub encoder_destroy : Interface → Outcome Interface
encoder_destroy i = elim (i.encoder) [
  | absent ↦ fault
  | destroyed ↦ fault
  | _ ↦ done (record i { encoder = destroyed })
]

unfoldable pub encoder_close : Interface → Outcome Interface
encoder_close i = elim (i.encoder) [
  | absent ↦ fault
  | destroyed ↦ fault
  | _ ↦ done (record i { encoder = closed })
]

-- `quiet_decoder_destroy`: the thread uses the decoder as long as it runs.
unfoldable pub decoder_destroy : Interface → Outcome Interface
decoder_destroy i = elim (i.decoder) [
  | absent ↦ fault
  | destroyed ↦ fault
  | _ ↦ elim (i.thread) [ running ↦ fault | _ ↦ done (record i { decoder = destroyed }) ]
]

unfoldable pub decoder_close : Interface → Outcome Interface
decoder_close i = elim (i.decoder) [
  | absent ↦ fault
  | destroyed ↦ fault
  | _ ↦ done (record i { decoder = closed })
]

-- `free(interface)`: the thread uses the interface as long as it runs.
unfoldable pub free_interface : Interface → Outcome Interface
free_interface i =
    if i.allocated
    then elim (i.thread) [ running ↦ fault | _ ↦ done (record i { allocated = false }) ]
    else fault

-- `quiet_lwip_interface_init`, where the two devices can be created or not; false is ERR_IF. On either
-- failure what was created before is destroyed.
unfoldable pub interface_init : Bool → Bool → Interface → Outcome (Bool × Interface)
unfolding encoder_destroy
interface_init true true i = done (
  true,
  record i {
    encoder = opened;
    decoder = opened;
    driver = true;
    send_temp = true;
    recv_temp = true;
    thread = running;
  },
)
interface_init true false i = do
  j ← encoder_destroy (record i { encoder = opened })
  done (false, j)
interface_init false decoder_ok i = done (false, i)

-- `quiet_lwip_portaudio_init`; it starts no thread.
unfoldable pub portaudio_init : Bool → Bool → Interface → Outcome (Bool × Interface)
unfolding encoder_destroy
portaudio_init true true i = done (
  true,
  record i {
    encoder = opened;
    decoder = opened;
    driver = true;
    send_temp = true;
    recv_temp = true;
  },
)
portaudio_init true false i = do
  j ← encoder_destroy (record i { encoder = opened })
  done (false, j)
portaudio_init false decoder_ok i = done (false, i)

-- `quiet_lwip_create`, with the local address: whether it returns an interface, and what is left.
-- `netif_add` calls the initialisation and lists the interface if that succeeds; if not, its result is
-- NULL, and `free` of it does nothing.
unfoldable pub create : Bool → Bool → ℕ → Outcome (Bool × Interface)
unfolding interface_init
create encoder_ok decoder_ok local_address = do
  r ← interface_init encoder_ok decoder_ok fresh_interface
  if r.0
      then done (true, record (r.1) { listed = true; up = not (local_address == 0) })
      else done (false, r.1)

-- `quiet_lwip_portaudio_create`
unfoldable pub portaudio_create : Bool → Bool → Outcome (Bool × Interface)
unfolding portaudio_init free_interface
portaudio_create encoder_ok decoder_ok = do
  r ← portaudio_init encoder_ok decoder_ok fresh_interface
  if r.0
      then done (true, record (r.1) { listed = true; up = true })
      else do j ← free_interface r.1; done (false, j)

-- `quiet_lwip_autoip`, where `autoip_start` succeeds or not. `netif_remove` also downs the interface.
unfoldable pub autoip : Bool → Interface → Outcome (Bool × Interface)
unfolding free_interface
autoip started i =
    if started
    then done (true, i)
    else do j ← free_interface (record i { listed = false; up = false }); done (false, j)

-- `quiet_lwip_join_threads`: the thread ends once the decoder is closed; joining it again is undefined.
unfoldable pub join_threads : Interface → Outcome Interface
join_threads i = elim (i.thread) [
  | unstarted ↦ fault
  | joined ↦ fault
  | running ↦ elim (i.decoder) [ closed ↦ done (record i { thread = joined }) | _ ↦ blocked ]
]

-- `quiet_lwip_close`
unfoldable pub close : Interface → Outcome Interface
unfolding decoder_close join_threads encoder_close
close i = do a ← decoder_close i; b ← join_threads a; encoder_close (record b { up = false })

-- `quiet_lwip_destroy`
unfoldable pub destroy : Interface → Outcome Interface
unfolding close encoder_destroy decoder_destroy free_interface
destroy i = do
  a ← close i
  b ← encoder_destroy (record a { listed = false; up = false })
  c ← decoder_destroy b
  free_interface c

-- `quiet_lwip_portaudio_destroy`
unfoldable pub portaudio_destroy : Interface → Outcome Interface
unfolding free_interface
portaudio_destroy i = free_interface (record i { up = false; listed = false })
