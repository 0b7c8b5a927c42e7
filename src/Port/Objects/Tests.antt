-- ===== src/Port/Objects/Tests.antt =====
-- The objects of src/lwip/sys_arch.c in a concrete heap.
use quiet_lwip.Prelude.{ℕ, ◌≡◌, [], ◌∷◌, Option, some, true, false, ◌&&◌, done, fault, arith}
use quiet_lwip.Port.Objects.{Heap, Mailbox, sys_mbox_new, sys_mbox_free}
use quiet_lwip.Port.Objects.Balance.{told, sys_mbox_free-sys_mbox_new}

-- A block and two semaphores are in use.
abbrev heap : Heap
heap = record {
  mallocs = [];
  fresh = 10;
  live = 9 ∷ 8 ∷ 4 ∷ [];
  sem = record { used = 2; max = 2 };
  mbox = record { used = 0; max = 0 };
  threads = [];
}

sys_mbox_free-sys_mbox_new_example :
    (mb : Mailbox) × (t : Heap) × (sys_mbox_new (told (true ∷ true ∷ false ∷ true ∷ []) heap)
      ≡ (some mb, t))
    × ((true && (false && true)) ≡ false → sys_mbox_free mb t ≡ fault)
    × ((true && (false && true)) ≡ true
        → (u : Heap) × (sys_mbox_free mb t ≡ done u)
          × (u.live ≡ 9 ∷ 8 ∷ 4 ∷ [])
          × (u.mbox.used ≡ 0))
sys_mbox_free-sys_mbox_new_example =
    sys_mbox_free-sys_mbox_new heap true false true [] (omega arith)

abbrev created : Option ℕ
created = some 77
