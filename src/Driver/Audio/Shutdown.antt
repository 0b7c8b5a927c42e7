-- ===== src/Driver/Audio/Shutdown.antt =====
-- The end of the audio threads of src/driver_portaudio.c.
use quiet_lwip.Prelude.{
  ℕ, zero, suc, ◌+◌, ◌-◌, ◌≤◌, ◌≡◌, ◌≢◌, ◌⊎◌, inl, inr, refl, true, false, arith,
}
use quiet_lwip.Driver.Audio.{
  Emitting, uncreated, filling, idle, ended, Receiving, asking, hearing, finished, Control,
  start_emit, stop_emit, stop_recv, join_emit, join_recv, release, gone, Threads, start_recv_thread,
  emitted, Step, creating, emitting, testing_emit, testing_recv, receiving, storing_emit,
  storing_recv, joining_emit, joining_recv, freeing, Run, still, then_step, Reachable,
}

-- How far the thread in control has come.
abbrev phase : Control → ℕ
phase start_emit = 0
phase stop_emit = 1
phase stop_recv = 2
phase join_emit = 3
phase join_recv = 4
phase release = 5
phase gone = 6

-- What a thread still has to do once its flag is set.
abbrev left_emit : Emitting → ℕ
left_emit uncreated = 3
left_emit filling = 2
left_emit idle = 1
left_emit ended = 0

abbrev left_recv : Receiving → ℕ
left_recv hearing = 2
left_recv asking = 1
left_recv finished = 0

record Inv (s : Threads) : Type 0 where
  block : (phase s.control ≤ 5) → s.allocated ≡ true
  freed : (6 ≤ phase s.control) → s.allocated ≡ false
  emit_flag : (2 ≤ phase s.control) → s.emit_shutdown ≡ true
  recv_flag : (3 ≤ phase s.control) → s.recv_shutdown ≡ true
  created : (1 ≤ phase s.control) → left_emit s.emit ≤ 2
  emit_over : (4 ≤ phase s.control) → left_emit s.emit ≡ 0
  recv_over : (5 ≤ phase s.control) → left_recv s.recv ≡ 0

left_emit-emitted : (n : ℕ) → left_emit (emitted n) ≤ 2
left_emit-emitted zero = omega arith
left_emit-emitted (suc n) = omega arith

Step-Inv : {s t : Threads} {k : ℕ} → Inv s → Step s k t → Inv t
Step-Inv {s} v (creating c) =
    ground (arith, v.block, v.freed, v.emit_flag, v.recv_flag, v.created, v.emit_over, v.recv_over)
Step-Inv {s} v (emitting n e) = ground (
  arith,
  v.block,
  v.freed,
  v.emit_flag,
  v.recv_flag,
  v.created,
  v.emit_over,
  v.recv_over,
  left_emit-emitted n,
)
Step-Inv {s} v (testing_emit e) =
    ground (arith, v.block, v.freed, v.emit_flag, v.recv_flag, v.created, v.emit_over, v.recv_over)
Step-Inv {s} v (testing_recv e) =
    ground (arith, v.block, v.freed, v.emit_flag, v.recv_flag, v.created, v.emit_over, v.recv_over)
Step-Inv {s} v (receiving e) =
    ground (arith, v.block, v.freed, v.emit_flag, v.recv_flag, v.created, v.emit_over, v.recv_over)
Step-Inv {s} v (storing_emit c) =
    ground (arith, v.block, v.freed, v.emit_flag, v.recv_flag, v.created, v.emit_over, v.recv_over)
Step-Inv {s} v (storing_recv c) =
    ground (arith, v.block, v.freed, v.emit_flag, v.recv_flag, v.created, v.emit_over, v.recv_over)
Step-Inv {s} v (joining_emit c e) =
    ground (arith, v.block, v.freed, v.emit_flag, v.recv_flag, v.created, v.emit_over, v.recv_over)
Step-Inv {s} v (joining_recv c e) =
    ground (arith, v.block, v.freed, v.emit_flag, v.recv_flag, v.created, v.emit_over, v.recv_over)
Step-Inv {s} v (freeing c) =
    ground (arith, v.block, v.freed, v.emit_flag, v.recv_flag, v.created, v.emit_over, v.recv_over)

start-Inv : Inv start_recv_thread
start-Inv = ground arith

run-Inv : {s t : Threads} {n packets : ℕ} → Inv s → Run s n packets t → Inv t
run-Inv v (still _) = v
run-Inv v (then_step run step) = Step-Inv (run-Inv v run) step

left_emit-zero : (e : Emitting) → left_emit e ≡ 0 → e ≡ ended
left_emit-zero ended h = refl
left_emit-zero uncreated h = absurd (omega (arith, h))
left_emit-zero filling h = absurd (omega (arith, h))
left_emit-zero idle h = absurd (omega (arith, h))

left_recv-zero : (r : Receiving) → left_recv r ≡ 0 → r ≡ finished
left_recv-zero finished h = refl
left_recv-zero asking h = absurd (omega (arith, h))
left_recv-zero hearing h = absurd (omega (arith, h))

-- The block with the flags and the arguments is freed only when both threads have ended: in a reachable
-- state in which one of the two has not, it is still allocated.
pub audio_threads_no_use_after_free :
    (s : Threads) → Reachable s → (s.emit ≢ ended) ⊎ (s.recv ≢ finished) → s.allocated ≡ true
audio_threads_no_use_after_free s (n, packets, run) alive =
    by_inv s.control s.emit s.recv (run-Inv start-Inv run) alive
  where
    by_inv :
        (c : Control) (e : Emitting) (r : Receiving)
        → Inv (record s { control = c; emit = e; recv = r })
        → (e ≢ ended) ⊎ (r ≢ finished)
        → s.allocated ≡ true
    by_inv gone e r v (inl alive) = absurd (alive (left_emit-zero e (v.emit_over (omega arith))))
    by_inv gone e r v (inr alive) = absurd (alive (left_recv-zero r (v.recv_over (omega arith))))
    by_inv _ e r v alive = v.block (omega arith)

-- What is left to do once both flags are set.
abbrev left : Threads → ℕ
left s = left_emit s.emit + left_recv s.recv + (6 - phase s.control)

left-Step :
    {s t : Threads} {k : ℕ}
    → Inv s
    → 3 ≤ phase s.control
    → Step s k t
    → (left t + 1 ≤ left s + k) × (3 ≤ phase t.control)
left-Step v stopping (creating c) = ground arith
left-Step v stopping (emitting zero e) = ground arith
left-Step v stopping (emitting (suc n) e) = ground arith
left-Step v stopping (testing_emit e) = ground (arith, v.emit_flag)
left-Step v stopping (testing_recv e) = ground (arith, v.recv_flag)
left-Step v stopping (receiving e) = ground arith
left-Step v stopping (storing_emit c) = ground arith
left-Step v stopping (storing_recv c) = ground arith
left-Step v stopping (joining_emit c e) = ground arith
left-Step v stopping (joining_recv c e) = ground arith
left-Step v stopping (freeing c) = ground arith

left-run :
    {s t : Threads} {n packets : ℕ}
    → Inv s
    → 3 ≤ phase s.control
    → Run s n packets t
    → (left t + n ≤ left s + packets) × (3 ≤ phase t.control)
left-run v stopping (still _) = (omega arith, stopping)
left-run v stopping (then_step run step) =
    let before = left-run v stopping run in
    let last = left-Step (run-Inv v run) before.1 step in (omega (arith, before.0, last.0), last.1)

-- What may come next: the end, with the block freed, or a step.
abbrev pub Next : Threads → Type 0
Next s = ((s.control ≡ gone) × (s.allocated ≡ false)) ⊎ ((k : ℕ) × (t : Threads) × Step s k t)

emit-next :
    (s : Threads) → left_emit s.emit ≤ 2 → (s.emit ≡ ended) ⊎ ((k : ℕ) × (t : Threads) × Step s k t)
emit-next s few = by_emit s.emit few
  where
    by_emit :
        (e : Emitting)
        → left_emit e ≤ 2
        → (e ≡ ended) ⊎ ((k : ℕ) × (t : Threads) × Step (record s { emit = e }) k t)
    by_emit uncreated few = absurd (omega (arith, few))
    by_emit filling few = inr (_, _, emitting 0 refl)
    by_emit idle few = inr (_, _, testing_emit refl)
    by_emit ended few = inl refl

recv-next : (s : Threads) → (s.recv ≡ finished) ⊎ ((k : ℕ) × (t : Threads) × Step s k t)
recv-next s = by_recv s.recv
  where
    by_recv :
        (r : Receiving)
        → (r ≡ finished) ⊎ ((k : ℕ) × (t : Threads) × Step (record s { recv = r }) k t)
    by_recv asking = inr (_, _, testing_recv refl)
    by_recv hearing = inr (_, _, receiving refl)
    by_recv finished = inl refl

progress : (s : Threads) → Inv s → 3 ≤ phase s.control → Next s
progress s v stopping = by_control s.control stopping v
  where
    by_control :
        (c : Control)
        → 3 ≤ phase c
        → Inv (record s { control = c })
        → Next (record s { control = c })
    by_control start_emit few w = absurd (omega (arith, few))
    by_control stop_emit few w = absurd (omega (arith, few))
    by_control stop_recv few w = absurd (omega (arith, few))
    by_control join_emit few w =
        elim (emit-next (record s { control = join_emit }) (w.created (omega arith))) [
          | inl e ↦ inr (_, _, joining_emit refl e)
          | inr step ↦ inr step
        ]
    by_control join_recv few w = elim (recv-next (record s { control = join_recv })) [
      | inl e ↦ inr (_, _, joining_recv refl e)
      | inr step ↦ inr step
    ]
    by_control release few w = inr (_, _, freeing refl)
    by_control gone few w = inl (refl, w.freed (omega arith))

left-start : (s : Threads) → Inv s → s.control ≡ join_emit → left s ≤ 7
left-start s v e = by_recv s.recv (v.created (rw e (omega arith)))
  where
    by_recv :
        (r : Receiving)
        → left_emit s.emit ≤ 2
        → left_emit s.emit + left_recv r + (6 - phase s.control) ≤ 7
    by_recv asking few = rw e (omega (arith, few))
    by_recv hearing few = rw e (omega (arith, few))
    by_recv finished few = rw e (omega (arith, few))

-- Stopping the threads ends: from the moment when both flags are set, however the threads interleave, a
-- run has at most 7 steps more than packets that are not empty, and where it can go no further the
-- caller has returned and the block is freed.
pub stop_audio_threads_ends :
    (s : Threads)
    → Reachable s
    → s.control ≡ join_emit
    → {t : Threads} (n packets : ℕ) → Run s n packets t
    → (n ≤ 7 + packets) × Next t
stop_audio_threads_ends s (m, before, reached) e {t} n packets run =
    let v = run-Inv start-Inv reached in
    let stopping : 3 ≤ phase s.control = rw e (omega arith) in
    let ran = left-run v stopping run in
    (omega (arith, ran.0, left-start s v e), progress t (run-Inv v run) ran.1)
