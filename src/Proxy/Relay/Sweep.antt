-- ===== src/Proxy/Relay/Sweep.antt =====
-- The in-place loops of `relay` in examples/src/relay.c against a filter.
use quiet_lwip.Prelude.{
  next_entry, take-set, drop-set_before, ℕ, suc, ◌+◌, ◌≤◌, ◌≡◌, refl, ap, List, [], ◌∷◌, ◌++◌,
  append_assoc, append-nil, set, Ensures, Ensures-map, Ensures-bind, ◌⊎◌, inl, inr, sym, ◌∙◌,
  length, length-set, length-take, take-append-drop, subst, take, drop, arith,
}
use quiet_lwip.Proxy.Crossbar.{Slots, items, IsSlots}
use quiet_lwip.Proxy.Relay.{Verdict, stays, leaves, sweep, sweep_slots}

Verdict-cases :
    {A B : Type 0} (v : Verdict A B) → ((a : A) × (v ≡ stays a)) ⊎ ((b : B) × (v ≡ leaves b))
Verdict-cases (stays a) = inl (a, refl)
Verdict-cases (leaves b) = inr (b, refl)

module _ {A B : Type 0} (verdict : A → Verdict A B) where
  -- The specification: the entries that stay, and the effects of those that leave.
  unfoldable pub keep : List A → List A
  keep [] = []
  keep (x ∷ xs) = let rest = keep xs in elim (verdict x) [ stays a ↦ a ∷ rest | leaves b ↦ rest ]

  unfoldable pub effects : List A → List B
  effects [] = []
  effects (x ∷ xs) =
      let rest = effects xs in elim (verdict x) [ stays a ↦ rest | leaves b ↦ b ∷ rest ]

  -- What the loop leaves, started with `kept` entries written back and the entries `todo` to come.
  abbrev Swept : List A → ℕ → ℕ → List A → List A × ℕ × List B → Type 0
  Swept entries i kept todo (entries', kept', es) =
      (take kept' entries' ≡ take kept entries ++ keep todo)
      × (es ≡ effects todo)
      × (length entries' ≡ length entries)
      × (kept' ≤ i)

  sweep-Swept :
      (todo : List A) (i kept : ℕ) (entries rest : List A)
      → drop i entries ≡ todo ++ rest
      → kept ≤ i
      → i + length todo ≤ length entries
      → Ensures
          (sweep verdict (length todo) i kept entries)
          (Swept entries (i + length todo) kept todo)
  unfolding sweep keep effects
  sweep-Swept [] i kept entries rest at le fits =
      (sym (append-nil (take kept entries)), refl, refl, omega arith)
  sweep-Swept (x ∷ xs) i kept entries rest at le fits =
      let (here, tail) = next_entry entries i x (xs ++ rest) at in
      elim (Verdict-cases (verdict x)) [
        | inl (b, e) ↦
            rw (here, e, sweep, keep, effects)
              (Ensures-map (sweep verdict (length xs) (suc i) (suc kept) (set entries kept b)) _ _
                (sweep-Swept xs (suc i) (suc kept) (set entries kept b) rest
                  (drop-set_before entries (suc i) kept b (omega arith) ∙ tail) (omega arith)
                  (omega (arith, length-set entries kept b)))
                λ r h. (
                  ground (
                    arith,
                    h.0,
                    take-set entries kept b,
                    append_assoc (take kept entries) (b ∷ []) (keep xs),
                  ),
                  rw (e, effects) h.1,
                  ground (arith, h.2, length-set entries kept b),
                  omega (arith, h.3),
                ))
        | inr (b, e) ↦
            rw (here, e, sweep, keep, effects)
              (Ensures-bind (sweep verdict (length xs) (suc i) kept entries) _ _ _
                (sweep-Swept xs (suc i) kept entries rest tail (omega arith) (omega arith))
                λ r h. (
                  rw (e, keep) h.0,
                  rw (e, effects) (ap (λ es. b ∷ es) h.1),
                  h.2,
                  omega (arith, h.3),
                ))
      ]

  pub sweep_slots_lem :
      (s : Slots A)
      → IsSlots s
      → Ensures
          (sweep_slots verdict s)
          (λ r. (items r.0 ≡ keep (items s)) × (r.1 ≡ effects (items s)) × IsSlots r.0)
  unfolding sweep_slots
  sweep_slots_lem s v =
      Ensures-bind (sweep verdict s.used 0 0 s.entries) _ (Swept s.entries (0 + s.used) 0 (items s))
        _
        (subst (λ n. Ensures (sweep verdict n 0 0 s.entries) (Swept s.entries (0 + n) 0 (items s)))
          used
          (sweep-Swept (items s) 0 0 s.entries (drop s.used s.entries)
            (sym (take-append-drop s.used s.entries)) (omega arith) (omega (arith, used))))
        λ r h. (h.0, h.1, (h.2 ∙ v.0, omega arith))
    where
      used : length (items s) ≡ s.used
      used = omega (arith, length-take s.used s.entries)
