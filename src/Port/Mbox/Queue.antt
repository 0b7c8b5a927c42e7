-- ===== src/Port/Mbox/Queue.antt =====
-- The mailbox of src/lwip/sys_arch.c seen from outside: a FIFO of at most 127 messages.
use quiet_lwip.Prelude.{
  ℕ, zero, suc, ◌+◌, ◌-◌, ◌%◌, ◌^◌, ◌≤◌, ◌<◌, ◌≡◌, ◌≢◌, refl, ap, ap₂, subst, List, [], ◌∷◌, ◌++◌,
  Option, none, some, Bool, true, false, arith, leb, if◌then◌else◌, length, set, get_or, length-set,
  get_or-set_self, get_or-set_ne, Ensures,
}
use quiet_lwip.Port.Mbox.{Mbox, trypost, tryfetch}

-- The specification: the messages waiting, oldest first.
unfoldable pub push : ℕ → List ℕ → Bool × List ℕ
push msg q = if leb 127 (length q) then (false, q) else (true, q ++ (msg ∷ []))

unfoldable pub pop : List ℕ → Option ℕ × List ℕ
pop [] = (none, [])
pop (x ∷ q) = (some x, q)

-- The `n` messages from index `i` on, where index `i` stands in slot `i % 128`.
abbrev pub window : List ℕ → ℕ → ℕ → List ℕ
window slots i zero = []
window slots i (suc n) = get_or slots (i % 128) 0 ∷ window slots (i + 1) n

abbrev pub contents : Mbox → List ℕ
contents mb = window mb.msgs mb.first (mb.last - mb.first)

pub length-window : (slots : List ℕ) (i n : ℕ) → length (window slots i n) ≡ n
length-window slots i zero = refl
length-window slots i (suc n) = ap suc (length-window slots (i + 1) n)

-- A write just past the window extends it by that message.
pub window-set :
    (slots : List ℕ) (msg i n j : ℕ)
    → length slots ≡ 128
    → n < 128
    → j ≡ i + n
    → window (set slots (j % 128) msg) i (suc n) ≡ window slots i n ++ (msg ∷ [])
window-set slots msg i zero j len h e =
    ap (λ v. v ∷ []) (subst (λ k. get_or (set slots k msg) (i % 128) 0 ≡ msg) slot written)
  where
    slot : i % 128 ≡ j % 128
    slot = omega arith

    written : get_or (set slots (i % 128) msg) (i % 128) 0 ≡ msg
    written = get_or-set_self slots (i % 128) msg 0 (omega arith)
window-set slots msg i (suc n) j len h e =
    ap₂ ◌∷◌ (get_or-set_ne slots msg 0 (omega arith))
      (window-set slots msg (i + 1) n j len (omega arith) (omega arith))

-- The representation: 128 slots, at most 127 of them in use, indices in range of `int`, and the
-- mutex free between calls.
pub record IsValid (mb : Mbox) : Type 0 where
  pub slots : length mb.msgs ≡ 128
  pub ordered : mb.first ≤ mb.last
  pub bounded : mb.last ≤ mb.first + 127
  pub free : mb.mutex ≡ 1

pub length-contents : (mb : Mbox) → length (contents mb) ≡ mb.last - mb.first
length-contents mb = length-window mb.msgs mb.first (mb.last - mb.first)

-- Taking the oldest message leaves the rest of the window.
pub window-pop :
    (slots : List ℕ) (i n : ℕ)
    → n ≢ 0
    → window slots i n ≡ get_or slots (i % 128) 0 ∷ window slots (i + 1) (n - 1)
window-pop slots i zero h = absurd (h refl)
window-pop slots i (suc n) h = ap (λ k. window slots i (suc k)) (omega arith)

pub window-put :
    (mb : Mbox) (msg : ℕ)
    → length mb.msgs ≡ 128
    → mb.first ≤ mb.last
    → mb.last < mb.first + 128
    → window (set mb.msgs (mb.last % 128) msg) mb.first (mb.last + 1 - mb.first)
      ≡ contents mb ++ (msg ∷ [])
window-put mb msg len le lt =
    subst (λ k. window (set mb.msgs (mb.last % 128) msg) mb.first k ≡ contents mb ++ (msg ∷ []))
      {x = suc (mb.last - mb.first)} (omega arith)
      (window-set mb.msgs msg mb.first (mb.last - mb.first) mb.last len (omega arith) (omega arith))

-- What a call returns, and the queue that it leaves.
abbrev pub Posts : ℕ → Mbox → Bool × Mbox → Type 0
Posts msg mb r =
    ((r.0, contents r.1) ≡ push msg (contents mb)) × IsValid r.1 × (r.1.last ≤ mb.last + 1)

abbrev pub Fetches : Mbox → Option ℕ × Mbox → Type 0
Fetches mb r = ((r.0, contents r.1) ≡ pop (contents mb)) × IsValid r.1 × (r.1.last ≡ mb.last)

-- `sys_mbox_trypost` on a valid mailbox returns, stores the message at the end of the queue or
-- refuses it as the queue of 127 messages does, and keeps the mailbox valid, while the indices are
-- below the end of `int`.
pub trypost_refines :
    (msg : ℕ) {mb : Mbox}
    → IsValid mb
    → mb.last + 129 ≤ 2 ^ 31
    → Ensures (trypost msg mb) (Posts msg mb)
unfolding trypost push
trypost_refines msg {mb} v room = ground (
  arith,
  length-contents mb,
  length-set mb.msgs (mb.last % 128) msg,
  window-put mb msg v.slots v.ordered,
)

-- `sys_arch_mbox_tryfetch` on a valid mailbox returns and takes the oldest message, or reports that
-- there is none, as the queue does, and keeps the mailbox valid, while the indices are below the
-- end of `int`.
pub tryfetch_refines :
    {mb : Mbox} → IsValid mb → mb.last + 129 ≤ 2 ^ 31 → Ensures (tryfetch mb) (Fetches mb)
unfolding tryfetch pop
tryfetch_refines {mb} v room = ground (arith, window-pop mb.msgs mb.first (mb.last - mb.first))
