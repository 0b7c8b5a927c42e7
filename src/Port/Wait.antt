-- ===== src/Port/Wait.antt =====
-- The timed wait on a semaphore of src/lwip/sys_arch.c. What the other threads do shows only in
-- what each wait for the condition variable returns, and the counter that the waiter then reads.
use quiet_lwip.Prelude.{
  ℕ, ◌+◌, ◌-◌, ◌^◌, ◌%◌, ◌≤◌, ◌<◌, ◌≡◌, ◌≢◌, Bool, true, false, ◌==◌, List, [], ◌∷◌, arith, leb,
  ltb, if◌then◌else◌, Outcome, done, blocked,
}
use quiet_lwip.Port.Sem.{Sem}

-- SYS_ARCH_TIMEOUT
abbrev pub sys_arch_timeout : ℕ
sys_arch_timeout = 0xffff_ffff

-- What one call of `cond_wait` comes to.
pub data Wakeup : Type 0 where
  timed_out : Sem → Wakeup  -- it returned SYS_ARCH_TIMEOUT
  woken : ℕ → Sem → Wakeup  -- it returned this many milliseconds

-- The loop of `sys_arch_sem_wait`: `timeout`, `time_needed`, the counter, and the wake-ups to come.
-- With `timeout` 0 what `cond_wait` returns is not looked at. The result is the value returned and
-- the counter left.
unfoldable pub sem_wait_loop : ℕ → ℕ → Sem → List Wakeup → Outcome (ℕ × Sem)
sem_wait_loop timeout needed c [] = if leb c 0 then blocked else done (needed, c - 1)
sem_wait_loop timeout needed c (timed_out c' ∷ ws) =
    let rest = sem_wait_loop timeout needed c' ws in
    if leb c 0
    then if ltb 0 timeout then done (sys_arch_timeout, c') else rest
    else done (needed, c - 1)
sem_wait_loop timeout needed c (woken ms c' ∷ ws) =
    let rest = sem_wait_loop timeout (if ltb 0 timeout then ms else needed) c' ws in
    if leb c 0 then rest else done (needed, c - 1)

-- `sys_arch_sem_wait`
unfoldable pub sys_arch_sem_wait : ℕ → Sem → List Wakeup → Outcome (ℕ × Sem)
unfolding sem_wait_loop
sys_arch_sem_wait timeout c ws = sem_wait_loop timeout 0 c ws

-- The counters that the loop tests, one after the other.
unfoldable pub counters : Sem → List Wakeup → List Sem
counters c [] = c ∷ []
counters c (timed_out c' ∷ ws) = c ∷ counters c' ws
counters c (woken ms c' ∷ ws) = c ∷ counters c' ws

-- Take one from the first counter that has something to take.
unfoldable pub take_one : List Sem → Outcome (ℕ × Sem)
take_one [] = blocked
take_one (c ∷ cs) = if leb c 0 then take_one cs else done (0, c - 1)

-- Wake-ups that find nothing to take.
abbrev pub idle_wakeups : List ℕ → List Wakeup → List Wakeup
idle_wakeups [] ws = ws
idle_wakeups (ms ∷ rest) ws = woken ms 0 ∷ idle_wakeups rest ws

-- `cond_wait_win32`, with the two readings of `GetTickCount64` and whether `SleepConditionVariableCS`
-- succeeds with its wait in milliseconds, of which 2 ^ 32 - 1 is INFINITE.
unfoldable cond_wait_win32 : (ℕ → Bool) → ℕ → ℕ → ℕ → ℕ
cond_wait_win32 sleeps timeout t₀ t₁ =
    let wait_ms = if timeout == 0 then 0xffff_ffff else timeout in
    if sleeps wait_ms then (t₁ + (2 ^ 64 - t₀)) % 2 ^ 64 % 2 ^ 32 else sys_arch_timeout

-- A wait that succeeds reports the milliseconds between its two readings modulo 2 ^ 32; one that fails,
-- for whatever reason, the timeout. With a timeout of 0 it waits without end.
cond_wait_win32_lem :
    (sleeps : ℕ → Bool) (timeout t₀ t₁ : ℕ)
    → t₀ ≤ t₁
    → t₁ < 2 ^ 64
    → (timeout ≢ 0
        → sleeps timeout ≡ true
        → cond_wait_win32 sleeps timeout t₀ t₁ ≡ (t₁ - t₀) % 2 ^ 32)
      × (timeout ≢ 0
          → sleeps timeout ≡ false
          → cond_wait_win32 sleeps timeout t₀ t₁ ≡ sys_arch_timeout)
      × (sleeps 0xffff_ffff ≡ true → cond_wait_win32 sleeps 0 t₀ t₁ ≡ (t₁ - t₀) % 2 ^ 32)
unfolding cond_wait_win32
cond_wait_win32_lem sleeps timeout t₀ t₁ le lt =
    ((λ ne e. ground (arith, ne, e)), (λ ne e. ground (arith, ne, e)), λ e. ground (arith, e))
