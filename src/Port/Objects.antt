-- ===== src/Port/Objects.antt =====
-- How src/lwip/sys_arch.c makes and frees semaphores, mailboxes and threads. The blocks of memory are
-- numbers; `malloc` and `pthread_create` give what the model's lists say.
pub mod Balance
mod Tests
use quiet_lwip.Prelude.{
  ℕ, suc, ◌+◌, ◌-◌, ◌^◌, ◌%◌, List, [], ◌∷◌, Option, none, some, Bool, true, false, ltb, ◌==◌,
  if◌then◌else◌, Outcome, done, fault, ◌>>=◌,
}

-- A `struct stats_syselem` of `lwip_stats.sys`, without its `err`.
pub record Usage : Type 0 where
  pub used : ℕ
  pub max : ℕ

-- `SYS_STATS_INC_USED`, in 16 bits
unfoldable pub inc_used : Usage → Usage
inc_used u =
    let used = (u.used + 1) % 2 ^ 16 in
    record { used = used; max = if ltb u.max used then used else u.max }

-- `SYS_STATS_DEC`
unfoldable pub dec_used : Usage → Usage
dec_used u = record u { used = (u.used + (2 ^ 16 - 1)) % 2 ^ 16 }

pub record Heap : Type 0 where
  pub mallocs : List Bool  -- whether the next calls of `malloc` give a block
  pub fresh : ℕ  -- the next block
  pub live : List ℕ  -- the blocks that are allocated, latest first
  pub sem : Usage
  pub mbox : Usage
  pub threads : List (ℕ × ℕ)  -- the list `threads`: its blocks with their `pthread`

unfoldable pub malloc : Heap → Option ℕ × Heap
malloc h = elim (h.mallocs) [
  | [] ↦ (none, h)
  | false ∷ ms ↦ (none, record h { mallocs = ms })
  | true ∷ ms ↦
      (some h.fresh, record h { mallocs = ms; fresh = suc h.fresh; live = h.fresh ∷ h.live })
]

abbrev pub is_live : ℕ → List ℕ → Bool
is_live p [] = false
is_live p (q ∷ qs) = let rest = is_live p qs in if q == p then true else rest

abbrev pub released : ℕ → List ℕ → List ℕ
released p [] = []
released p (q ∷ qs) = let rest = released p qs in if q == p then qs else q ∷ rest

-- `free` of a block: it must be allocated.
unfoldable pub free : ℕ → Heap → Outcome Heap
free p h = if is_live p h.live then done (record h { live = released p h.live }) else fault

-- `sys_sem_new_internal`; none is NULL.
abbrev pub sys_sem_new_internal : Heap → Option ℕ × Heap
sys_sem_new_internal h = malloc h

-- `sys_sem_free_internal` destroys the members of the semaphore, which NULL has none of, and frees it.
abbrev pub sys_sem_free_internal : Option ℕ → Heap → Outcome Heap
sys_sem_free_internal none h = fault
sys_sem_free_internal (some p) h = free p h

-- `sys_sem_new`: the result is ERR_OK with the semaphore, or ERR_MEM.
unfoldable pub sys_sem_new : Heap → Option ℕ × Heap
unfolding malloc inc_used
sys_sem_new h = sys_sem_new_internal (record h { sem = inc_used h.sem })

-- `sys_sem_free`, which does nothing with SYS_SEM_NULL.
unfoldable pub sys_sem_free : Option ℕ → Heap → Outcome Heap
unfolding free dec_used
sys_sem_free none h = done h
sys_sem_free (some p) h = sys_sem_free_internal (some p) (record h { sem = dec_used h.sem })

-- `struct sys_mbox`, its block and its semaphores
pub record Mailbox : Type 0 where
  pub block : ℕ
  pub not_empty : Option ℕ
  pub not_full : Option ℕ
  pub mutex : Option ℕ

-- `sys_mbox_new`: the result is ERR_OK with the mailbox, or ERR_MEM.
unfoldable pub sys_mbox_new : Heap → Option Mailbox × Heap
unfolding malloc inc_used
sys_mbox_new h =
    let (mbox, h₀) = malloc h in
    elim mbox [
      | none ↦ (none, h₀)
      | some block ↦
          (let (not_empty, h₁) = sys_sem_new_internal h₀ in
            let (not_full, h₂) = sys_sem_new_internal h₁ in
            let (mutex, h₃) = sys_sem_new_internal h₂ in
            (
              some (record {
                block = block;
                not_empty = not_empty;
                not_full = not_full;
                mutex = mutex;
              }),
              record h₃ { mbox = inc_used h₃.mbox },
            ))
    ]

-- `sys_arch_sem_wait` of a semaphore whose counter is above 0.
abbrev pub wait_free : Option ℕ → Heap → Outcome Heap
wait_free none h = fault
wait_free (some p) h = if is_live p h.live then done h else fault

-- `sys_mbox_free`, where no thread is inside the mailbox.
unfoldable pub sys_mbox_free : Mailbox → Heap → Outcome Heap
unfolding free dec_used
sys_mbox_free mb h = do
  h₁ ← wait_free mb.mutex (record h { mbox = dec_used h.mbox })
  h₂ ← sys_sem_free_internal mb.not_empty h₁
  h₃ ← sys_sem_free_internal mb.not_full h₂
  h₄ ← sys_sem_free_internal mb.mutex h₃
  free mb.block h₄

-- `introduce_thread`
unfoldable pub introduce_thread : ℕ → Heap → Option ℕ × Heap
unfolding malloc
introduce_thread id h =
    let (thread, t) = malloc h in
    elim thread [
      | none ↦ (none, t)
      | some block ↦ (some block, record t { threads = (block, id) ∷ t.threads })
    ]

-- `sys_thread_new`, with the thread that `pthread_create` gives, or none where it fails. The result none
-- is `abort`.
unfoldable pub sys_thread_new : Option ℕ → Heap → Option (ℕ × Heap)
unfolding introduce_thread
sys_thread_new none h = none
sys_thread_new (some id) h =
    let (st, t) = introduce_thread id h in elim st [ none ↦ none | some block ↦ some (block, t) ]
