-- ===== src/Port/Mbox.antt =====
-- The mailboxes of src/lwip/sys_arch.c: a ring of 128 pointers, of which 127 can be in use. The
-- indices are `int`s that only grow. A call is modelled from the wait for the mutex to its release.
pub mod Queue
pub mod Threads
pub mod Safety
pub mod Overflow
use quiet_lwip.Prelude.{
  ℕ, ◌+◌, ◌%◌, List, Option, none, some, Bool, true, false, ltb, leb, ◌==◌, if◌then◌else◌, set,
  get_or, replicate, Outcome, done, blocked, fault, add_int, ◌>>=◌, ◌>>◌,
}
use quiet_lwip.Port.Sem.{Sem, sem_signal, sem_wait}

abbrev pub sys_mbox_size : ℕ
sys_mbox_size = 128

-- `struct sys_mbox`; a message is a pointer, which is only moved.
pub record Mbox : Type 0 where
  pub first : ℕ
  pub last : ℕ
  pub msgs : List ℕ
  pub not_empty : Sem
  pub not_full : Sem
  pub mutex : Sem
  pub wait_send : ℕ

-- `sys_mbox_new`, where `malloc` succeeds; the slots start with unknown pointers.
unfoldable pub mbox_new : List ℕ → Mbox
mbox_new slots = record {
  first = 0;
  last = 0;
  msgs = slots;
  not_empty = 0;
  not_full = 0;
  mutex = 1;
  wait_send = 0;
}

unfoldable pub lock : Mbox → Outcome Mbox
unfolding sem_wait
lock mb = do c ← sem_wait mb.mutex; done (record mb { mutex = c })

unfoldable pub unlock : Mbox → Mbox
unfolding sem_signal
unlock mb = record mb { mutex = sem_signal mb.mutex }

-- `(mbox->last + 1) >= (mbox->first + SYS_MBOX_SIZE)`
unfoldable pub is_full : Mbox → Outcome Bool
unfolding add_int
is_full mb = do
  next ← add_int mb.last 1
  limit ← add_int mb.first sys_mbox_size
  done (leb limit next)

-- The end of `sys_mbox_trypost` and `sys_mbox_post`, where there is room: `msgs[last % SIZE] = msg`,
-- `last++`, and a signal to `not_empty` if the mailbox was empty.
unfoldable pub put : ℕ → Mbox → Outcome Mbox
unfolding add_int sem_signal
put msg mb = do
  next ← add_int mb.last 1
  done (record mb {
    msgs = set mb.msgs (mb.last % sys_mbox_size) msg;
    last = next;
    not_empty = if mb.last == mb.first then sem_signal mb.not_empty else mb.not_empty;
  })

-- The end of `sys_arch_mbox_tryfetch` and `sys_arch_mbox_fetch`, where there is a message.
unfoldable pub take_first : Mbox → Outcome (ℕ × Mbox)
unfolding add_int sem_signal
take_first mb = do
  next ← add_int mb.first 1
  done (
    get_or mb.msgs (mb.first % sys_mbox_size) 0,
    record mb {
      first = next;
      not_full = if mb.wait_send == 0 then mb.not_full else sem_signal mb.not_full;
    },
  )

-- `sys_mbox_trypost`; false is ERR_MEM.
unfoldable pub trypost : ℕ → Mbox → Outcome (Bool × Mbox)
unfolding lock unlock is_full put
trypost msg mb = do
  held ← lock mb
  full ← is_full held
  if full then done (false, unlock held) else do stored ← put msg held; done (true, unlock stored)

-- `sys_arch_mbox_tryfetch`; `none` is SYS_MBOX_EMPTY.
unfoldable pub tryfetch : Mbox → Outcome (Option ℕ × Mbox)
unfolding lock unlock take_first
tryfetch mb = do
  held ← lock mb
  if held.first == held.last
      then done (none, unlock held)
      else do r ← take_first held; done (some r.0, unlock r.1)
