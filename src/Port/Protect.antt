-- ===== src/Port/Protect.antt =====
-- `sys_arch_protect` and `sys_arch_unprotect` of src/lwip/sys_arch.c: a mutex with an owner and a
-- nesting count, against a lock that one thread holds to some depth.
use quiet_lwip.Prelude.{
  ℕ, zero, suc, ◌+◌, ◌-◌, ◌<◌, ◌≡◌, ◌^◌, refl, Bool, true, false, Option, none, some, arith, ◌==◌,
  if◌then◌else◌, Outcome, done, blocked, fault, add_int, ◌>>=◌,
}

-- `lwprot_mutex` (locked or not), `lwprot_thread` (`none` for 0xDEAD, which no thread's id equals)
-- and `lwprot_count`. Threads are numbers.
pub record Prot : Type 0 where
  pub locked : Bool
  pub thread : Option ℕ
  pub count : ℕ

abbrev pub unprotected : Prot
unprotected = record { locked = false; thread = none; count = 0 }

-- `lwprot_thread == pthread_self()`
unfoldable pub is_owner : ℕ → Prot → Bool
is_owner self p = elim (p.thread) [ none ↦ false | some t ↦ t == self ]

-- `sys_arch_protect` by the thread `self`: waits where another thread holds the mutex.
unfoldable pub sys_arch_protect : ℕ → Prot → Outcome Prot
unfolding is_owner add_int
sys_arch_protect self p =
    if is_owner self p
    then (do n ← add_int p.count 1; done (record p { count = n }))
    else if p.locked
    then blocked
    else done (record { locked = true; thread = some self; count = 1 })

-- `sys_arch_unprotect` by the thread `self`. A thread that owns the mutex has a count of at least 1.
unfoldable pub sys_arch_unprotect : ℕ → Prot → Prot
unfolding is_owner
sys_arch_unprotect self p =
    if is_owner self p
    then if p.count - 1 == 0
      then record { locked = false; thread = none; count = p.count - 1 }
      else record p { count = p.count - 1 }
    else p

-- The specification: the thread that holds the lock, and how often it does beyond the first.
abbrev pub Holder : Type 0
Holder = Option (ℕ × ℕ)

unfoldable pub acquire : ℕ → Holder → Outcome Holder
acquire self none = done (some (self, 0))
acquire self (some (t, depth)) = if t == self then done (some (t, depth + 1)) else blocked

unfoldable pub release : ℕ → Holder → Holder
release self none = none
release self (some (t, zero)) = if t == self then none else some (t, zero)
release self (some (t, suc depth)) = if t == self then some (t, depth) else some (t, suc depth)

-- The state of the code that stands for a state of the specification.
abbrev pub prot_of : Holder → Prot
prot_of none = unprotected
prot_of (some (t, depth)) = record { locked = true; thread = some t; count = depth + 1 }

abbrev pub map_done : (Holder → Prot) → Outcome Holder → Outcome Prot
map_done f (done h) = done (f h)
map_done f blocked = blocked
map_done f fault = fault

abbrev pub depth : Holder → ℕ
depth none = 0
depth (some (t, d)) = d + 1

-- Protecting is taking the lock once more: it waits exactly where another thread has it, while the
-- nesting count fits in an `int`.
pub sys_arch_protect_refines :
    (self : ℕ) (h : Holder)
    → depth h + 1 < 2 ^ 31
    → sys_arch_protect self (prot_of h) ≡ map_done prot_of (acquire self h)
unfolding sys_arch_protect acquire
sys_arch_protect_refines self none fits = ground arith
sys_arch_protect_refines self (some (t, d)) fits = ground arith

-- Unprotecting gives the lock back once, frees it at the last time, and does nothing in a thread that
-- does not hold it.
pub sys_arch_unprotect_refines :
    (self : ℕ) (h : Holder) → sys_arch_unprotect self (prot_of h) ≡ prot_of (release self h)
unfolding sys_arch_unprotect release
sys_arch_unprotect_refines self none = refl
sys_arch_unprotect_refines self (some (t, zero)) = ground arith
sys_arch_unprotect_refines self (some (t, suc d)) = ground arith
