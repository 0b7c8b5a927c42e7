-- ===== src/Port/Mbox/Overflow.antt =====
-- The indices of a mailbox of src/lwip/sys_arch.c are `int`s that only grow: the calls in sequence
-- behave as the bounded queue until an index reaches the end of `int`.
use quiet_lwip.Prelude.{
  ℕ, ◌+◌, ◌≤◌, ◌^◌, ◌≡◌, ◌↔◌, ◌⊎◌, refl, List, [], ◌∷◌, Option, Bool, arith, length, Outcome, done,
  fault, ◌>>=◌, Ensures, Ensures-bind,
}
use quiet_lwip.Port.Mbox.{Mbox, trypost, tryfetch}
use quiet_lwip.Port.Mbox.Queue.{
  contents, push, pop, IsValid, Posts, Fetches, trypost_refines, tryfetch_refines,
}

pub data Op : Type 0 where
  post : ℕ → Op
  fetch : Op

pub data Reply : Type 0 where
  posted : Bool → Reply
  fetched : Option ℕ → Reply

-- Calls of `sys_mbox_trypost` and `sys_arch_mbox_tryfetch` in order.
unfoldable pub run : List Op → Mbox → Outcome (List Reply × Mbox)
run [] mb = done ([], mb)
run (post msg ∷ ops) mb = do
  r ← trypost msg mb
  rest ← run ops r.1
  done (posted r.0 ∷ rest.0, rest.1)
run (fetch ∷ ops) mb = do r ← tryfetch mb; rest ← run ops r.1; done (fetched r.0 ∷ rest.0, rest.1)

-- The same calls on the queue.
unfoldable pub run_queue : List Op → List ℕ → List Reply × List ℕ
run_queue [] q = ([], q)
run_queue (post msg ∷ ops) q =
    let r = push msg q in let rest = run_queue ops r.1 in (posted r.0 ∷ rest.0, rest.1)
run_queue (fetch ∷ ops) q =
    let r = pop q in let rest = run_queue ops r.1 in (fetched r.0 ∷ rest.0, rest.1)

abbrev pub Runs : List Op → List ℕ → List Reply × Mbox → Type 0
Runs ops q r = ((r.0, contents r.1) ≡ run_queue ops q) × IsValid r.1

-- While the indices stay below the end of `int`, any sequence of calls returns, with the replies of
-- the queue of 127 messages, and leaves the mailbox holding its messages.
pub run_refines :
    (ops : List Op) {mb : Mbox}
    → IsValid mb
    → mb.last + length ops + 128 ≤ 2 ^ 31
    → Ensures (run ops mb) (Runs ops (contents mb))
unfolding run run_queue
run_refines [] v room = (refl, v)
run_refines (post msg ∷ ops) {mb} v room =
    Ensures-bind (trypost msg mb) _ (Posts msg mb) _ (trypost_refines msg v (omega arith)) λ r h.
      Ensures-bind (run ops r.1) _ (Runs ops (contents r.1)) _ (run_refines ops h.1 (omega arith))
        λ rest k. (rw (← h.0, ← k.0), k.1)
run_refines (fetch ∷ ops) {mb} v room =
    Ensures-bind (tryfetch mb) _ (Fetches mb) _ (tryfetch_refines v (omega arith)) λ r h.
      Ensures-bind (run ops r.1) _ (Runs ops (contents r.1)) _ (run_refines ops h.1 (omega arith))
        λ rest k. (rw (← h.0, ← k.0), k.1)

-- `sys_mbox_trypost` on a valid mailbox is undefined exactly where an index has come to the end of
-- `int`: where the 2 ^ 31st message is stored, or the first index lies within 128 of that.
pub trypost-fault_iff :
    (msg : ℕ) {mb : Mbox}
    → IsValid mb
    → (trypost msg mb ≡ fault) ↔ ((2 ^ 31 ≤ mb.last + 1) ⊎ (2 ^ 31 ≤ mb.first + 128))
unfolding trypost
trypost-fault_iff msg {mb} v = ground arith
