-- ===== src/Driver/Audio/Tests.antt =====
-- A run of the audio threads of src/driver_portaudio.c.
use quiet_lwip.Prelude.{◌+◌, ◌≤◌, ◌≡◌, inl, refl, true, arith}
use quiet_lwip.Driver.Audio.{
  filling, ended, join_emit, Threads, start_recv_thread, creating, emitting, testing_emit,
  storing_emit, storing_recv, Run, still, then_step, Reachable,
}
use quiet_lwip.Driver.Audio.Shutdown.{
  audio_threads_no_use_after_free, Next, stop_audio_threads_ends,
}

-- The threads are stopped as soon as they have been started.
abbrev stopping : Threads
stopping = record start_recv_thread {
  emit = filling;
  emit_shutdown = true;
  recv_shutdown = true;
  control = join_emit;
}

stopping-Reachable : Reachable stopping
stopping-Reachable = (
  3,
  0,
  then_step (then_step (then_step (still start_recv_thread) (creating refl)) (storing_emit refl))
      (storing_recv refl),
)

-- One more packet is emitted, then an empty one, and the emitting thread ends.
abbrev emit_ended : Threads
emit_ended = record stopping { emit = ended }

emit_run : Run stopping 3 1 emit_ended
emit_run =
    then_step (then_step (then_step (still stopping) (emitting 5 refl)) (emitting 0 refl))
      (testing_emit refl)

audio_threads_no_use_after_free_example : stopping.allocated ≡ true
audio_threads_no_use_after_free_example =
    audio_threads_no_use_after_free stopping stopping-Reachable (inl (λ e. ground (arith, e)))

stop_audio_threads_ends_example : (3 ≤ 7 + 1) × Next emit_ended
stop_audio_threads_ends_example =
    stop_audio_threads_ends stopping stopping-Reachable refl 3 1 emit_run
