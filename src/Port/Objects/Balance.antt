-- ===== src/Port/Objects/Balance.antt =====
-- What is made is what is freed: the semaphores, mailboxes and threads of src/lwip/sys_arch.c.
use quiet_lwip.Prelude.{
  ℕ, suc, ◌+◌, ◌^◌, ◌%◌, ◌<◌, ◌≡◌, ◌↔◌, ◌⊎◌, inl, inr, refl, List, ◌∷◌, Option, none, some, Bool,
  true, false, ◌&&◌, done, fault, arith,
}
use quiet_lwip.Port.Objects.{
  Usage, inc_used, dec_used, Heap, malloc, free, sys_sem_new, sys_sem_free, Mailbox, sys_mbox_new,
  sys_mbox_free, introduce_thread, sys_thread_new,
}

dec-inc : (u : Usage) → u.used < 2 ^ 16 → (dec_used (inc_used u)).used ≡ u.used
unfolding dec_used inc_used
dec-inc u lt = omega arith

-- What a call of `malloc` is told, in a heap.
abbrev pub told : List Bool → Heap → Heap
told ms h = record h { mallocs = ms }

-- A mailbox for which memory was found is reported as made, whatever becomes of its three
-- semaphores. If all three were made, freeing it gives back all that was allocated for it and
-- restores the count of mailboxes, which is a `u16_t`; if one was not, it uses NULL.
pub sys_mbox_free-sys_mbox_new :
    (h : Heap) (first second third : Bool) (rest : List Bool)
    → h.mbox.used < 2 ^ 16
    → (mb : Mailbox) × (t : Heap) × (sys_mbox_new (told (true ∷ first ∷ second ∷ third ∷ rest) h)
        ≡ (some mb, t))
      × ((first && (second && third)) ≡ false → sys_mbox_free mb t ≡ fault)
      × ((first && (second && third)) ≡ true
          → (u : Heap) × (sys_mbox_free mb t ≡ done u)
            × (u.live ≡ h.live)
            × (u.mbox.used ≡ h.mbox.used))
unfolding sys_mbox_new sys_mbox_free malloc free
sys_mbox_free-sys_mbox_new h true true true rest lt = (
  _,
  _,
  refl,
  (λ e. ground (arith, e)),
  λ e. (
    record h {
      mallocs = rest;
      fresh = suc (suc (suc (suc h.fresh)));
      mbox = dec_used (inc_used h.mbox);
    },
    ground arith,
    refl,
    dec-inc h.mbox lt,
  ),
)
sys_mbox_free-sys_mbox_new h true true false rest lt =
    (_, _, refl, (λ e. refl), λ e. ground (arith, e))
sys_mbox_free-sys_mbox_new h true false true rest lt =
    (_, _, refl, (λ e. ground arith), λ e. ground (arith, e))
sys_mbox_free-sys_mbox_new h true false false rest lt =
    (_, _, refl, (λ e. refl), λ e. ground (arith, e))
sys_mbox_free-sys_mbox_new h false true true rest lt =
    (_, _, refl, (λ e. ground arith), λ e. ground (arith, e))
sys_mbox_free-sys_mbox_new h false true false rest lt =
    (_, _, refl, (λ e. refl), λ e. ground (arith, e))
sys_mbox_free-sys_mbox_new h false false true rest lt =
    (_, _, refl, (λ e. ground arith), λ e. ground (arith, e))
sys_mbox_free-sys_mbox_new h false false false rest lt =
    (_, _, refl, (λ e. refl), λ e. ground (arith, e))

-- A semaphore that was made and freed leaves the blocks and the count of semaphores as they were. One
-- that could not be made is counted all the same, and nothing takes it off the count again.
pub sys_sem_free-sys_sem_new :
    (h : Heap) (rest : List Bool)
    → h.sem.used < 2 ^ 16
    → ((p : ℕ) × (t u : Heap) × (sys_sem_new (told (true ∷ rest) h) ≡ (some p, t))
        × (sys_sem_free (some p) t ≡ done u)
        × (u.live ≡ h.live)
        × (u.sem.used ≡ h.sem.used))
      × ((t : Heap) × (sys_sem_new (told (false ∷ rest) h) ≡ (none, t))
          × (sys_sem_free none t ≡ done t)
          × (t.live ≡ h.live)
          × (t.sem.used ≡ (h.sem.used + 1) % 2 ^ 16))
unfolding sys_sem_new sys_sem_free malloc free inc_used
sys_sem_free-sys_sem_new h rest lt = (
  (
    h.fresh,
    _,
    record h { mallocs = rest; fresh = suc h.fresh; sem = dec_used (inc_used h.sem) },
    refl,
    ground arith,
    refl,
    dec-inc h.sem lt,
  ),
  (_, refl, refl, refl, refl),
)

-- `sys_thread_new` aborts exactly if the thread could not be created or no memory was found for it. If
-- it returns, the thread stands first in the list, before those that were there.
pub sys_thread_new_lem :
    (h : Heap) (created : Option ℕ) (found : Bool) (rest : List Bool)
    → ((sys_thread_new created (told (found ∷ rest) h) ≡ none)
        ↔ ((created ≡ none) ⊎ (found ≡ false)))
      × ((id : ℕ)
          → created ≡ some id
          → found ≡ true
          → (st : ℕ) × (t : Heap) × (sys_thread_new created (told (found ∷ rest) h) ≡ some (st, t))
            × (t.threads ≡ (st, id) ∷ h.threads)
            × (t.live ≡ st ∷ h.live))
unfolding sys_thread_new introduce_thread malloc
sys_thread_new_lem h none found rest = (((λ e. inl refl), λ e. refl), λ id e. ground (arith, e))
sys_thread_new_lem h (some id) false rest =
    (((λ e. inr refl), λ e. refl), λ n e f. ground (arith, f))
sys_thread_new_lem h (some id) true rest = (
  ((λ e. ground (arith, e)), λ e. ground (arith, e)),
  λ n e f. (
    h.fresh,
    record h {
      mallocs = rest;
      fresh = suc h.fresh;
      live = h.fresh ∷ h.live;
      threads = (h.fresh, id) ∷ h.threads;
    },
    refl,
    ground (arith, e),
    refl,
  ),
)
