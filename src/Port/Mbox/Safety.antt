-- ===== src/Port/Mbox/Safety.antt =====
-- What holds of the threads on a mailbox of src/lwip/sys_arch.c in every reachable state.
use quiet_lwip.Prelude.{
  ℕ, zero, suc, ◌+◌, ◌-◌, ◌%◌, ◌≤◌, ◌<◌, ◌≡◌, ◌≢◌, refl, ◌∙◌, subst, ℕ_discrete, List, [], ◌∷◌,
  ◌++◌, append-nil, append_assoc, true, arith, length, length-set, update, sum_below,
  sum_below-update, weight-le-sum_below, sum_below-eq-zero,
}
use quiet_lwip.Port.Mbox.{mbox_new, put, take_first, lock, unlock, is_full}
use quiet_lwip.Port.Mbox.Queue.{contents, length-contents, window-put, window-pop}
use quiet_lwip.Port.Mbox.Threads.{Poster, Fetcher, System, Step, Reach, start, initial, later}

-- 1 for a poster that holds the mutex.
abbrev pub holds : Poster → ℕ
holds (Poster.holding _ _) = 1
holds _ = 0

abbrev pub fetcher_holds : Fetcher → ℕ
fetcher_holds (Fetcher.holding _) = 1
fetcher_holds _ = 0

-- 1 for a poster in the wait for `not_full`.
abbrev pub sleeps : Poster → ℕ
sleeps (Poster.waiting _) = 1
sleeps _ = 0

-- 1 for a poster that `wait_send` counts.
abbrev pub counted : Poster → ℕ
counted (Poster.waiting _) = 1
counted (Poster.relocking _) = 1
counted _ = 0

-- 1 for a poster that is about to test whether there is room.
abbrev pub retries : Poster → ℕ
retries (Poster.relocking _) = 1
retries (Poster.holding _ _) = 1
retries _ = 0

abbrev pub waits : Fetcher → ℕ
waits (Fetcher.waiting _) = 1
waits _ = 0

pub record Inv (n : ℕ) (s : System) : Type 0 where
  pub slots : length s.mb.msgs ≡ 128
  pub ordered : s.mb.first ≤ s.mb.last
  pub bounded : s.mb.last ≤ s.mb.first + 127
  pub binary : (s.mb.not_empty ≤ 1) × (s.mb.not_full ≤ 1)
  pub one_holder : s.mb.mutex + sum_below holds n s.posters + fetcher_holds s.fetcher ≡ 1
  pub senders : s.mb.wait_send ≡ sum_below counted n s.posters
  pub fifo : s.sent ≡ s.got ++ contents s.mb
  pub fetcher_woken : waits s.fetcher ≡ 1 → s.mb.first ≢ s.mb.last → s.mb.not_empty ≡ 1
  pub posters_woken :
      s.mb.first ≡ s.mb.last
      → 1 ≤ sum_below sleeps n s.posters
      → 1 ≤ s.mb.not_full + sum_below retries n s.posters

sleeps-le-counted :
    (n : ℕ) (posters : ℕ → Poster) → sum_below sleeps n posters ≤ sum_below counted n posters
unfolding sum_below
sleeps-le-counted zero posters = omega arith
sleeps-le-counted (suc n) posters = omega (arith, one (posters n), sleeps-le-counted n posters)
  where
    one : (p : Poster) → sleeps p ≤ counted p
    one (Poster.waiting msg) = omega arith
    one _ = omega arith

-- How a change of poster `i` from `p` to `p'` moves the sums.
record Moved (n : ℕ) (s : System) (i : ℕ) (p p' : Poster) : Type 0 where
  holders :
      holds p + sum_below holds n (update s.posters i p') ≡ holds p' + sum_below holds n s.posters
  counts :
      counted p + sum_below counted n (update s.posters i p')
      ≡ counted p' + sum_below counted n s.posters
  sleeping :
      sleeps p + sum_below sleeps n (update s.posters i p')
      ≡ sleeps p' + sum_below sleeps n s.posters
  retrying :
      retries p + sum_below retries n (update s.posters i p')
      ≡ retries p' + sum_below retries n s.posters

moved :
    {n : ℕ} (s : System) (i : ℕ) {p : Poster} (p' : Poster)
    → i < n
    → s.posters i ≡ p
    → Moved n s i p p'
moved {n} s i {p} p' lt e =
    subst (λ q. Moved n s i q p') e
      (record {
        holders = sum_below-update holds n i s.posters p' lt;
        counts = sum_below-update counted n i s.posters p' lt;
        sleeping = sum_below-update sleeps n i s.posters p' lt;
        retrying = sum_below-update retries n i s.posters p' lt;
      })

Step-Inv : {n : ℕ} {s t : System} → Step n s t → Inv n s → Inv n t
unfolding lock unlock is_full put take_first
Step-Inv (Step.post_call s i b msg lt e) v =
    let m = moved s i (Poster.locking b msg) lt e in ground arith
Step-Inv (Step.post_lock s i b msg mb lt e held) v =
    let m = moved s i (Poster.holding b msg) lt e in ground arith
Step-Inv (Step.post_wait s i msg lt e full) v =
    let m = moved s i (Poster.waiting msg) lt e in ground arith
Step-Inv (Step.post_give_up s i msg lt e full) v =
    let m = moved s i Poster.idle lt e in ground arith
Step-Inv (Step.post_put s i b msg mb lt e room stored) v = ground (
  arith,
  moved s i Poster.idle lt e,
  window-put s.mb msg v.slots v.ordered,
  length-set s.mb.msgs (s.mb.last % 128) msg,
  append_assoc s.got (contents s.mb) (msg ∷ []),
)
Step-Inv (Step.post_wake s i msg c lt e got) v =
    let m = moved s i (Poster.relocking msg) lt e in ground arith
Step-Inv (Step.post_relock s i msg mb lt e held) v =
    let m = moved s i (Poster.holding true msg) lt e in ground arith
Step-Inv (Step.fetch_call s mode e) v = ground arith
Step-Inv (Step.fetch_lock s mode mb e held) v = ground arith
Step-Inv (Step.fetch_none s e empty) v = ground arith
Step-Inv (Step.fetch_wait s mode e blocking empty) v = ground arith
Step-Inv {n} (Step.fetch_take s mode msg mb e some_left taken) v = ground (
  arith,
  window-pop s.mb.msgs s.mb.first (s.mb.last - s.mb.first),
  append_assoc s.got (msg ∷ []) (contents mb),
  sleeps-le-counted n s.posters,
)
Step-Inv (Step.fetch_wake s mode c e got) v = ground arith
Step-Inv (Step.fetch_timeout s e) v = ground arith

Inv-start : (n : ℕ) (slots : List ℕ) → length slots ≡ 128 → Inv n (start slots)
unfolding mbox_new
Inv-start n slots len = record {
  slots = len;
  ordered = omega arith;
  bounded = omega arith;
  binary = omega arith;
  one_holder = omega (arith, none_at holds refl);
  senders = omega (arith, none_at counted refl);
  fifo = refl;
  fetcher_woken = λ h. cc;
  posters_woken = λ e h. absurd (omega (arith, none_at sleeps refl));
}
  where
    none_at : (w : Poster → ℕ) → w Poster.idle ≡ 0 → sum_below w n (λ _. Poster.idle) ≡ 0
    none_at w h = sum_below-eq-zero w n (λ _. Poster.idle) (λ i. h)

pub Reach-Inv :
    {n : ℕ} {slots : List ℕ} {s : System} → length slots ≡ 128 → Reach n slots s → Inv n s
Reach-Inv {n} {slots} len initial = Inv-start n slots len
Reach-Inv len (later r st) = Step-Inv st (Reach-Inv len r)

-- However posting and fetching threads interleave, the messages handed out are the first of those
-- stored, in order, with none lost or repeated: what was stored is what was handed out followed by
-- what the mailbox holds, which is never more than 127 messages.
pub messages_in_order :
    {n : ℕ} {slots : List ℕ} {s : System}
    → length slots ≡ 128
    → Reach n slots s
    → (s.sent ≡ s.got ++ contents s.mb) × (length (contents s.mb) ≤ 127)
messages_in_order {s = s} len r =
    let v = Reach-Inv len r in (v.fifo, omega (arith, length-contents s.mb))

two_holders :
    (n i j : ℕ) (posters : ℕ → Poster)
    → i < n
    → j < n
    → i ≢ j
    → holds (posters i) + holds (posters j) ≤ sum_below holds n posters
unfolding sum_below
two_holders zero i j posters hi hj ne = absurd (omega arith)
two_holders (suc n) i j posters hi hj ne = elim (ℕ_discrete i n) [
  | yes top ↦ ground (arith, weight-le-sum_below holds n j posters)
  | no below ↦ elim (ℕ_discrete j n) [
    | yes top ↦ ground (arith, weight-le-sum_below holds n i posters)
    | no also ↦ omega (arith, two_holders n i j posters (omega arith) (omega arith) ne)
  ]
]

-- In a reachable state two different posters never both hold the mutex, and no poster holds it
-- together with the fetching thread.
pub mutual_exclusion :
    {n : ℕ} {slots : List ℕ} {s : System} (i j : ℕ)
    → length slots ≡ 128
    → Reach n slots s
    → i < n
    → j < n
    → i ≢ j
    → (holds (s.posters i) + holds (s.posters j) ≤ 1)
      × (holds (s.posters i) + fetcher_holds s.fetcher ≤ 1)
mutual_exclusion {n} {s = s} i j len r hi hj ne =
    let v = Reach-Inv len r in
    let pair = two_holders n i j s.posters hi hj ne in
    let one = weight-le-sum_below holds n i s.posters hi in (omega arith, omega arith)

-- No wake-up is lost for the fetching thread: in a reachable state in which it sleeps and no signal
-- is pending for it, every message stored has been handed out.
pub fetcher_not_stranded :
    {n : ℕ} {slots : List ℕ} {s : System}
    → length slots ≡ 128
    → Reach n slots s
    → waits s.fetcher ≡ 1
    → s.mb.not_empty ≡ 0
    → s.sent ≡ s.got
fetcher_not_stranded {s = s} len r asleep none_pending =
    let v = Reach-Inv len r in
    elim (ℕ_discrete s.mb.first s.mb.last) [
      | yes e ↦ v.fifo ∙ ground (arith, append-nil s.got)
      | no ne ↦ absurd (omega (arith, v.fetcher_woken asleep ne))
    ]

-- No wake-up is lost for the posters while the fetching thread sleeps: in a reachable state in which
-- it sleeps with no signal pending for it, and a poster sleeps for want of room, a signal is pending
-- for the posters, or another poster is about to test whether there is room.
pub posters_not_stranded :
    {n : ℕ} {slots : List ℕ} {s : System} (i : ℕ)
    → length slots ≡ 128
    → Reach n slots s
    → waits s.fetcher ≡ 1
    → s.mb.not_empty ≡ 0
    → i < n
    → sleeps (s.posters i) ≡ 1
    → 1 ≤ s.mb.not_full + sum_below retries n s.posters
posters_not_stranded {n} {s = s} i len r asleep none_pending lt sleeper =
    let v = Reach-Inv len r in
    elim (ℕ_discrete s.mb.first s.mb.last) [
      | yes e ↦ v.posters_woken e (omega (arith, weight-le-sum_below sleeps n i s.posters lt))
      | no ne ↦ absurd (omega (arith, v.fetcher_woken asleep ne))
    ]
