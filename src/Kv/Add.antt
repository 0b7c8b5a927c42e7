-- ===== src/Kv/Add.antt =====
-- `key_value_add` of examples/src/kv_server.c as the update of a map.
use quiet_lwip.Prelude.{
  inl, inr, ap, ◌∙◌, some, map_some, Option-cases, take, if◌then◌else◌, Ensures, Ensures-map,
}
use quiet_lwip.Kv.{
  Pair, KeyValue, Library, Documented, resize, key_value_find, insert_pair, key_value_add,
}
use quiet_lwip.Kv.Values.{same, values}
use quiet_lwip.Kv.Store.{IsValid, first, missing_values}
use quiet_lwip.Kv.Replace.{IsPair, Adds, replace_value_lem}
use quiet_lwip.Kv.Resize.{resize-Grows}
use quiet_lwip.Kv.Insert.{insert_pair_lem}

-- `key_value_add` of a key that ends in a zero byte returns, keeps the store valid, and puts the first
-- 31 bytes of the value under the key, new or not, and leaves every other key with what it had.
pub key_value_add_lem :
    {lib : Library}
    → Documented lib
    → (pair : Pair) (s : KeyValue) → IsPair pair
    → IsValid s
    → Ensures (key_value_add lib pair s) (Adds pair s)
unfolding key_value_add
key_value_add_lem {lib} doc pair s good v = elim (Option-cases (key_value_find lib pair s)) [
  | inr (i, e) ↦ rw (e, key_value_add) (replace_value_lem doc pair good s i v e)
  | inl e ↦
      let (room, same_items) = resize-Grows s v in
      let none_there = ap (values pair) same_items ∙ missing_values doc pair s v e in
      rw (e, key_value_add)
        (Ensures-map (insert_pair lib pair (resize s)) (Adds pair (resize s)) (Adds pair s)
          (insert_pair_lem doc pair good (resize s) room none_there)
          λ t added. (
            added.0,
            λ k.
                added.1 k
                ∙ ap
                    (λ ps.
                      if same k pair
                      then some (take 31 pair.value)
                      else map_some (take 31) (first (values k ps)))
                    same_items,
          ))
]
