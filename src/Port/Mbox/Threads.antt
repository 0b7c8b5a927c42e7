-- ===== src/Port/Mbox/Threads.antt =====
-- Threads on one mailbox of src/lwip/sys_arch.c: any number of threads that post, by
-- `sys_mbox_post` or `sys_mbox_trypost`, and one that fetches, as lwIP's mailboxes are used.
-- A step runs from one wait on a semaphore to the next; the fields of the mailbox are read and
-- written only by the thread that holds its mutex. An `int` overflow has no step.
use quiet_lwip.Prelude.{
  ℕ, ◌+◌, ◌-◌, ◌<◌, ◌≡◌, ◌≢◌, List, [], ◌∷◌, ◌++◌, Bool, true, false, done, update,
}
use quiet_lwip.Port.Sem.{sem_wait}
use quiet_lwip.Port.Mbox.{Mbox, mbox_new, put, take_first, lock, unlock, is_full}

-- Where a posting thread stands. The flag is true in `sys_mbox_post`, false in `sys_mbox_trypost`.
pub data Poster : Type 0 where
  idle : Poster
  locking : Bool → ℕ → Poster  -- before the first wait for `mutex`
  holding : Bool → ℕ → Poster  -- at the test of the loop
  waiting : ℕ → Poster  -- in the wait for `not_full`
  relocking : ℕ → Poster  -- in the wait for `mutex` that follows it

-- `sys_arch_mbox_tryfetch`, and `sys_arch_mbox_fetch` without and with a timeout.
pub data Mode : Type 0 where
  try forever timed : Mode

-- Where the fetching thread stands.
pub data Fetcher : Type 0 where
  idle : Fetcher
  locking : Mode → Fetcher
  holding : Mode → Fetcher
  waiting : Mode → Fetcher  -- in the wait for `not_empty`

-- `sent` and `got` record, in order, the messages stored and the messages handed out.
pub record System : Type 0 where
  pub mb : Mbox
  pub posters : ℕ → Poster
  pub fetcher : Fetcher
  pub sent : List ℕ
  pub got : List ℕ

abbrev pub start : List ℕ → System
start slots = record {
  mb = mbox_new slots;
  posters = λ _. Poster.idle;
  fetcher = Fetcher.idle;
  sent = [];
  got = [];
}

-- Poster `i` goes to `p`, and leaves the mailbox `mb`.
abbrev pub post_to : System → ℕ → Poster → Mbox → System
post_to s i p mb = record s { mb = mb; posters = update s.posters i p }

abbrev pub fetch_to : System → Fetcher → Mbox → System
fetch_to s f mb = record s { mb = mb; fetcher = f }

-- One step of one of the threads; the posters are the threads below `n`.
pub data Step (n : ℕ) : System → System → Type 0 where
  post_call :
      (s : System) (i : ℕ) (blocking : Bool) (msg : ℕ)
      → i < n
      → s.posters i ≡ Poster.idle
      → Step n s (post_to s i (Poster.locking blocking msg) s.mb)
  post_lock :
      (s : System) (i : ℕ) (blocking : Bool) (msg : ℕ) (mb : Mbox)
      → i < n
      → s.posters i ≡ Poster.locking blocking msg
      → lock s.mb ≡ done mb
      → Step n s (post_to s i (Poster.holding blocking msg) mb)
  post_wait :
      (s : System) (i msg : ℕ)
      → i < n
      → s.posters i ≡ Poster.holding true msg
      → is_full s.mb ≡ done true
      → Step n s (
          post_to s i
            (Poster.waiting msg)
            (unlock (record s.mb { wait_send = s.mb.wait_send + 1 })))
  post_give_up :
      (s : System) (i msg : ℕ)
      → i < n
      → s.posters i ≡ Poster.holding false msg
      → is_full s.mb ≡ done true
      → Step n s (post_to s i Poster.idle (unlock s.mb))
  post_put :
      (s : System) (i : ℕ) (blocking : Bool) (msg : ℕ) (mb : Mbox)
      → i < n
      → s.posters i ≡ Poster.holding blocking msg
      → is_full s.mb ≡ done false
      → put msg s.mb ≡ done mb
      → Step n s (record s {
        mb = unlock mb;
        posters = update s.posters i Poster.idle;
        sent = s.sent ++ (msg ∷ []);
      })
  post_wake :
      (s : System) (i msg c : ℕ)
      → i < n
      → s.posters i ≡ Poster.waiting msg
      → sem_wait s.mb.not_full ≡ done c
      → Step n s (post_to s i (Poster.relocking msg) (record s.mb { not_full = c }))
  post_relock :
      (s : System) (i msg : ℕ) (mb : Mbox)
      → i < n
      → s.posters i ≡ Poster.relocking msg
      → lock s.mb ≡ done mb
      → Step n s
          (post_to s i (Poster.holding true msg) (record mb { wait_send = mb.wait_send - 1 }))
  fetch_call :
      (s : System) (mode : Mode)
      → s.fetcher ≡ Fetcher.idle
      → Step n s (fetch_to s (Fetcher.locking mode) s.mb)
  fetch_lock :
      (s : System) (mode : Mode) (mb : Mbox)
      → s.fetcher ≡ Fetcher.locking mode
      → lock s.mb ≡ done mb
      → Step n s (fetch_to s (Fetcher.holding mode) mb)
  fetch_none :
      (s : System)
      → s.fetcher ≡ Fetcher.holding Mode.try
      → s.mb.first ≡ s.mb.last
      → Step n s (fetch_to s Fetcher.idle (unlock s.mb))
  fetch_wait :
      (s : System) (mode : Mode)
      → s.fetcher ≡ Fetcher.holding mode
      → mode ≢ Mode.try
      → s.mb.first ≡ s.mb.last
      → Step n s (fetch_to s (Fetcher.waiting mode) (unlock s.mb))
  fetch_take :
      (s : System) (mode : Mode) (msg : ℕ) (mb : Mbox)
      → s.fetcher ≡ Fetcher.holding mode
      → s.mb.first ≢ s.mb.last
      → take_first s.mb ≡ done (msg, mb)
      → Step n s (record s { mb = unlock mb; fetcher = Fetcher.idle; got = s.got ++ (msg ∷ []) })
  fetch_wake :
      (s : System) (mode : Mode) (c : ℕ)
      → s.fetcher ≡ Fetcher.waiting mode
      → sem_wait s.mb.not_empty ≡ done c
      → Step n s (fetch_to s (Fetcher.locking mode) (record s.mb { not_empty = c }))
  fetch_timeout :
      (s : System)
      → s.fetcher ≡ Fetcher.waiting Mode.timed
      → Step n s (fetch_to s Fetcher.idle s.mb)

pub data Reach (n : ℕ) (slots : List ℕ) : System → Type 0 where
  initial : Reach n slots (start slots)
  later : {s t : System} → Reach n slots s → Step n s t → Reach n slots t
