-- ===== src/Kv/Resize.antt =====
-- The growth of the array in `key_value_add` of examples/src/kv_server.c.
use quiet_lwip.Prelude.{
  ◌*◌, ◌≤◌, ◌<◌, ◌≡◌, refl, sym, ap, subst, ◌∙◌, ◌++◌, replicate, length, length-append,
  length-replicate, take-append_length, take_all, if_elim, ==_iff, drop-append_length, arith, ◌==◌,
}
use quiet_lwip.Kv.{KeyValue, Sorted, empty_slot, items, resize}
use quiet_lwip.Kv.Values.{values}
use quiet_lwip.Kv.Store.{IsValid}

-- The store with room for one more item.
pub record HasRoom (s : KeyValue) : Type 0 where
  pub valid : IsValid s
  pub below : s.num_items < s.cap

-- The store after `realloc`.
abbrev pub grown : KeyValue → KeyValue
grown s = record s { kv = s.kv ++ replicate s.cap empty_slot; cap = s.cap * 2 }

-- Growing keeps the items.
abbrev pub Grows : KeyValue → KeyValue → Type 0
Grows s t = HasRoom t × (items t ≡ items s)

pub grown-Grows : (s : KeyValue) → IsValid s → s.num_items ≡ s.cap → Grows s (grown s)
grown-Grows s v full = (
  record {
    valid = record {
      room = omega (arith, v.room);
      some_room = omega (arith, v.some_room);
      size = omega (
        arith,
        length-append s.kv (replicate s.cap empty_slot),
        length-replicate s.cap empty_slot,
        v.size,
      );
      spare =
          drop-append_length s.kv (replicate s.cap empty_slot) s.num_items 0 (omega (arith, v.size))
          ∙ ap (λ m. replicate m empty_slot) (omega arith);
      sorted = subst Sorted (sym same_items) v.sorted;
      unique = λ k. subst (λ ps. length (values k ps) ≤ 1) (sym same_items) (v.unique k);
    };
    below = omega (arith, v.some_room);
  },
  same_items,
)
  where
    same_items : items (grown s) ≡ items s
    same_items =
        take-append_length s.kv (replicate s.cap empty_slot) s.num_items (omega (arith, v.size))
        ∙ sym (take_all s.num_items s.kv (omega (arith, v.size)))

pub resize-Grows : (s : KeyValue) → IsValid s → Grows s (resize s)
unfolding resize
resize-Grows s v =
    if_elim (Grows s) (s.num_items == s.cap) (λ e. grown-Grows s v ((==_iff s.num_items s.cap).0 e))
      λ e. (record { valid = v; below = ground (arith, v.room) }, refl)
