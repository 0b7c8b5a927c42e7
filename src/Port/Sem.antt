-- ===== src/Port/Sem.antt =====
-- The semaphores of src/lwip/sys_arch.c. A semaphore is its counter; the condition variable wakes
-- every waiter, which then tests the counter again under the semaphore's own lock, so that one
-- call is atomic up to the place where it waits.
use quiet_lwip.Prelude.{ℕ, ◌+◌, ◌-◌, ltb, leb, if◌then◌else◌, Outcome, done, blocked}

-- `struct sys_sem`, its counter `c`
abbrev pub Sem : Type 0
Sem = ℕ

-- `sys_sem_signal`: one up, then capped at 1.
unfoldable pub sem_signal : Sem → Sem
sem_signal c = if ltb 1 (c + 1) then 1 else c + 1

-- `sys_arch_sem_wait` with no timeout, in a run where nobody signals meanwhile.
unfoldable pub sem_wait : Sem → Outcome Sem
sem_wait c = if leb c 0 then blocked else done (c - 1)
