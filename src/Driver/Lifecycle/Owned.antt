-- ===== src/Driver/Lifecycle/Owned.antt =====
-- What the set-up and the tear-down of src/driver.c and src/driver_portaudio.c leave behind.
use quiet_lwip.Prelude.{
  ℕ, ◌+◌, ◌≡◌, Bool, true, false, ◌&&◌, fault, Ensures, ◌>>=◌, arith, if◌then◌else◌,
}
use quiet_lwip.Driver.Lifecycle.{
  Device, opened, closed, Thread, unstarted, running, joined, Interface, portaudio_create, autoip,
  close, destroy, portaudio_destroy,
}

abbrev block : Bool → ℕ
block true = 1
block false = 0

abbrev device : Device → ℕ
device opened = 1
device closed = 1
device _ = 0

abbrev thread_runs : Thread → ℕ
thread_runs running = 1
thread_runs _ = 0

-- How many blocks of memory, devices and threads are there.
abbrev pub live : Interface → ℕ
live i =
    block i.allocated
    + block i.driver
    + block i.send_temp
    + block i.recv_temp
    + device i.encoder
    + device i.decoder
    + thread_runs i.thread

-- An interface in use.
pub record IsOpen (i : Interface) : Type 0 where
  pub allocated : i.allocated ≡ true
  pub listed : i.listed ≡ true
  pub encoder : i.encoder ≡ opened
  pub decoder : i.decoder ≡ opened
  pub thread : i.thread ≡ running

-- `quiet_lwip_portaudio_create` returns an interface exactly if both devices can be created. It is
-- listed and up then, with its four blocks of memory and both devices; if not, nothing is left.
pub portaudio_create_lem :
    (encoder_ok decoder_ok : Bool)
    → Ensures (portaudio_create encoder_ok decoder_ok) (λ r.
      (r.0 ≡ (encoder_ok && decoder_ok))
      × (if r.0
          then (live r.1 ≡ 6) × (r.1.listed ≡ true) × (r.1.up ≡ true)
          else (live r.1 ≡ 0) × (r.1.listed ≡ false)))
unfolding portaudio_create
portaudio_create_lem true true = ground arith
portaudio_create_lem true false = ground arith
portaudio_create_lem false decoder_ok = ground arith

-- `quiet_lwip_destroy` of an interface in use returns: it neither waits for ever for the thread nor
-- takes anything from it while it runs. Then the thread has ended, the devices are destroyed and the
-- interface is freed and not listed; the driver and its two buffers are as before.
pub destroy_lem :
    (i : Interface)
    → IsOpen i
    → Ensures (destroy i) (λ j.
      (live j ≡ block i.driver + block i.send_temp + block i.recv_temp)
      × (j.listed ≡ false)
      × (j.thread ≡ joined))
unfolding destroy
destroy_lem i v = ground (arith, v.allocated, v.encoder, v.decoder, v.thread)

-- `quiet_lwip_portaudio_destroy` frees and unlists an allocated interface, which has no thread of its
-- own; all else is as before: the driver, both buffers and both devices stay behind.
pub portaudio_destroy_lem :
    (i : Interface)
    → i.allocated ≡ true
    → i.thread ≡ unstarted
    → Ensures (portaudio_destroy i) (λ j.
      (live j + 1 ≡ live i)
      × (j.allocated ≡ false)
      × (j.listed ≡ false)
      × (j.encoder ≡ i.encoder)
      × (j.decoder ≡ i.decoder))
unfolding portaudio_destroy
portaudio_destroy_lem i allocated unstarted_thread = ground arith

-- An interface in use that is closed is not to be destroyed: `quiet_lwip_destroy` closes it again, and
-- joins a thread that has been joined.
pub close-destroy-fault : (i : Interface) → IsOpen i → (close i >>= destroy) ≡ fault
unfolding close destroy
close-destroy-fault i v = ground (arith, v.allocated, v.encoder, v.decoder, v.thread)

-- Where `autoip_start` fails on an interface in use, `quiet_lwip_autoip` frees the interface under the
-- thread that uses it.
pub autoip-fault : (i : Interface) → IsOpen i → autoip false i ≡ fault
unfolding autoip
autoip-fault i v = ground (arith, v.allocated, v.thread)
