-- ===== src/Driver/Audio.antt =====
-- The audio threads of src/driver_portaudio.c: the loop that emits, the loop that receives, and the
-- thread that starts and stops them. A step is one call, or one load or store of a flag.
-- `pthread_create` and `calloc` are taken to succeed, as the code does.
pub mod Shutdown
mod Tests
use quiet_lwip.Prelude.{ℕ, zero, suc, ◌+◌, ◌≡◌, Bool, true, false, if◌then◌else◌}

-- `emit_loop`: before the call of `quiet_lwip_portaudio_get_next_audio_packet`, before the load of
-- `shutdown`, after `pthread_exit`.
pub data Emitting : Type 0 where
  uncreated : Emitting
  filling : Emitting
  idle : Emitting
  ended : Emitting

-- `recv_loop`: before the load of `shutdown`, before the call of
-- `quiet_lwip_portaudio_recv_audio_packet`, after `pthread_exit`.
pub data Receiving : Type 0 where
  asking : Receiving
  hearing : Receiving
  finished : Receiving

-- The thread that calls `quiet_lwip_portaudio_start_audio_threads` and
-- `quiet_lwip_portaudio_stop_audio_threads`, by what it does next.
pub data Control : Type 0 where
  start_emit : Control
  stop_emit : Control
  stop_recv : Control
  join_emit : Control
  join_recv : Control
  release : Control
  gone : Control

-- `quiet_lwip_portaudio_audio_threads`
pub record Threads : Type 0 where
  pub allocated : Bool
  pub emit_shutdown : Bool
  pub recv_shutdown : Bool
  pub emit : Emitting
  pub recv : Receiving
  pub control : Control

-- The start, up to the creation of the receiving thread.
abbrev pub start_recv_thread : Threads
start_recv_thread = record {
  allocated = true;
  emit_shutdown = false;
  recv_shutdown = false;
  emit = uncreated;
  recv = asking;
  control = start_emit;
}

-- `start_emit_thread`
abbrev pub start_emit_thread : Threads → Threads
start_emit_thread s = record s { emit_shutdown = false; emit = filling; control = stop_emit }

-- One call of `quiet_lwip_portaudio_get_next_audio_packet`, which returned a number of samples.
abbrev pub emitted : ℕ → Emitting
emitted zero = idle
emitted (suc n) = filling

abbrev pub test_emit : Threads → Threads
test_emit s = record s { emit = if s.emit_shutdown then ended else filling }

abbrev pub test_recv : Threads → Threads
test_recv s = record s { recv = if s.recv_shutdown then finished else hearing }

abbrev pub if_any : ℕ → ℕ
if_any zero = 0
if_any (suc n) = 1

-- A step of one of the three threads, and the number of packets in it that were not empty.
pub data Step (s : Threads) : ℕ → Threads → Type 0 where
  creating : s.control ≡ start_emit → Step s 0 (start_emit_thread s)
  emitting : (n : ℕ) → s.emit ≡ filling → Step s (if_any n) (record s { emit = emitted n })
  testing_emit : s.emit ≡ idle → Step s 0 (test_emit s)
  testing_recv : s.recv ≡ asking → Step s 0 (test_recv s)
  receiving : s.recv ≡ hearing → Step s 0 (record s { recv = asking })
  storing_emit :
      s.control ≡ stop_emit → Step s 0 (record s { emit_shutdown = true; control = stop_recv })
  storing_recv :
      s.control ≡ stop_recv → Step s 0 (record s { recv_shutdown = true; control = join_emit })
  joining_emit :
      s.control ≡ join_emit → s.emit ≡ ended → Step s 0 (record s { control = join_recv })
  joining_recv :
      s.control ≡ join_recv → s.recv ≡ finished → Step s 0 (record s { control = release })
  freeing : s.control ≡ release → Step s 0 (record s { allocated = false; control = gone })

-- A run of steps, with their number and the number of packets that were not empty.
pub data Run : Threads → ℕ → ℕ → Threads → Type 0 where
  still : (s : Threads) → Run s 0 0 s
  then_step :
      {s t u : Threads} {n packets k : ℕ}
      → Run s n packets t
      → Step t k u
      → Run s (suc n) (packets + k) u

abbrev pub Reachable : Threads → Type 0
Reachable s = (n : ℕ) × (packets : ℕ) × Run start_recv_thread n packets s
