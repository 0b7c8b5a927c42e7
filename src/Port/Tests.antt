-- ===== src/Port/Tests.antt =====
-- Runs of the model of src/lwip/sys_arch.c, and its theorems at concrete inputs.
use quiet_lwip.Prelude.{
  ℕ, ◌+◌, ◌-◌, ◌^◌, ◌≤◌, ◌≡◌, ◌↔◌, ◌⊎◌, refl, List, [], ◌∷◌, ◌++◌, some, true, false, arith, length,
  replicate, fault, Ensures, ℕ_discrete,
}
use quiet_lwip.Port.Mbox.{take_first, Mbox, mbox_new, lock, unlock, put, is_full, trypost, tryfetch}
use quiet_lwip.Port.Mbox.Queue.{
  IsValid, Posts, Fetches, contents, trypost_refines, tryfetch_refines,
}
use quiet_lwip.Port.Mbox.Overflow.{Op, Runs, run, run_refines, trypost-fault_iff}
use quiet_lwip.Port.Mbox.Threads.{System, Mode, Step, Reach, initial, later}
use quiet_lwip.Port.Mbox.Safety.{
  holds, fetcher_holds, messages_in_order, mutual_exclusion, fetcher_not_stranded,
}
use quiet_lwip.Port.Clock.{Timespec, elapsed_ms}
use quiet_lwip.Port.Protect.{
  sys_arch_protect, sys_arch_unprotect, prot_of, map_done, acquire, release,
  sys_arch_protect_refines, sys_arch_unprotect_refines,
}

abbrev slots : List ℕ
slots = replicate 128 0

abbrev fresh : Mbox
fresh = record {
  first = 0;
  last = 0;
  msgs = slots;
  not_empty = 0;
  not_full = 0;
  mutex = 1;
  wait_send = 0;
}

-- The indices have grown, and the slot of the next message is the last one.
abbrev used : Mbox
used = record fresh { first = 127; last = 127 }

fresh-IsValid : IsValid fresh
fresh-IsValid = omega arith

used-IsValid : IsValid used
used-IsValid = omega arith

abbrev script : List Op
script = Op.post 7 ∷ Op.post 8 ∷ Op.fetch ∷ Op.fetch ∷ Op.fetch ∷ []

trypost_refines_example : Ensures (trypost 7 used) (Posts 7 used)
trypost_refines_example = trypost_refines 7 used-IsValid (omega arith)

tryfetch_refines_example : Ensures (tryfetch fresh) (Fetches fresh)
tryfetch_refines_example = tryfetch_refines fresh-IsValid (omega arith)

run_refines_example : Ensures (run script used) (Runs script [])
run_refines_example = run_refines script used-IsValid (omega arith)

-- The indices of a mailbox that has passed on 2 ^ 31 - 1 messages.
abbrev worn : Mbox
worn = record fresh { first = 2 ^ 31 - 1; last = 2 ^ 31 - 1 }

worn-IsValid : IsValid worn
worn-IsValid = record { slots = refl; ordered = omega arith; bounded = omega arith; free = refl }

trypost-fault_iff_example :
    (trypost 7 worn ≡ fault) ↔ ((2 ^ 31 ≤ 2 ^ 31 - 1 + 1) ⊎ (2 ^ 31 ≤ 2 ^ 31 - 1 + 128))
trypost-fault_iff_example = trypost-fault_iff 7 worn-IsValid

abbrev Run : Type 0
Run = (s : System) × Reach 1 slots s

-- Poster 0 has stored a message.
stored : Run
unfolding mbox_new lock put is_full unlock ℕ_discrete
stored = (
  _,
  later
      (later (later initial (Step.post_call _ 0 true 7 (omega arith) refl))
        (Step.post_lock _ 0 true 7 _ (omega arith) refl refl))
      (Step.post_put _ 0 true 7 _ (omega arith) refl refl refl),
)

-- The fetching thread has taken the message, and sleeps in the wait for the next one.
drained : Run
unfolding stored take_first
drained = (
  _,
  later
      (later
        (later
          (later
            (later
              (later
                (later
                  (later (later stored.1 (Step.fetch_call _ Mode.forever refl))
                    (Step.fetch_lock _ Mode.forever _ refl refl))
                  (Step.fetch_take _ Mode.forever 7 _ refl (omega arith) refl))
                (Step.fetch_call _ Mode.forever refl))
              (Step.fetch_lock _ Mode.forever _ refl refl))
            (Step.fetch_wait _ Mode.forever refl (cc) refl))
          (Step.fetch_wake _ Mode.forever _ refl refl))
        (Step.fetch_lock _ Mode.forever _ refl refl))
      (Step.fetch_wait _ Mode.forever refl (cc) refl),
)

messages_in_order_example :
    (stored.0.sent ≡ stored.0.got ++ contents stored.0.mb) × (length (contents stored.0.mb) ≤ 127)
messages_in_order_example = messages_in_order refl stored.1

fetcher_not_stranded_example : drained.0.sent ≡ drained.0.got
unfolding drained
fetcher_not_stranded_example = fetcher_not_stranded refl drained.1 refl refl

-- Two posters: the first holds the mutex.
two_posters : (s : System) × Reach 2 slots s
unfolding mbox_new lock ℕ_discrete
two_posters = (
  _,
  later
      (later (later initial (Step.post_call _ 0 true 7 (omega arith) refl))
        (Step.post_call _ 1 false 8 (omega arith) refl))
      (Step.post_lock _ 0 true 7 _ (omega arith) refl refl),
)

mutual_exclusion_example :
    (holds (two_posters.0.posters 0) + holds (two_posters.0.posters 1) ≤ 1)
    × (holds (two_posters.0.posters 0) + fetcher_holds two_posters.0.fetcher ≤ 1)
mutual_exclusion_example =
    mutual_exclusion 0 1 refl two_posters.1 (omega arith) (omega arith) (omega arith)

abbrev at_one : Timespec
at_one = record { tv_sec = 1; tv_nsec = 999_000_000 }

abbrev at_three : Timespec
at_three = record { tv_sec = 3; tv_nsec = 1_500_000 }

elapsed_ms_value : elapsed_ms at_one at_three ≡ 1_002
unfolding elapsed_ms
elapsed_ms_value = refl

sys_arch_protect_refines_example :
    sys_arch_protect 4 (prot_of (some (4, 1))) ≡ map_done prot_of (acquire 4 (some (4, 1)))
sys_arch_protect_refines_example = sys_arch_protect_refines 4 (some (4, 1)) (omega arith)

sys_arch_unprotect_refines_example :
    sys_arch_unprotect 4 (prot_of (some (4, 0))) ≡ prot_of (release 4 (some (4, 0)))
sys_arch_unprotect_refines_example = sys_arch_unprotect_refines 4 (some (4, 0))
