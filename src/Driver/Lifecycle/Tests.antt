-- ===== src/Driver/Lifecycle/Tests.antt =====
-- The theorems on the set-up and the tear-down of src/driver.c and src/driver_portaudio.c at an
-- interface.
use quiet_lwip.Prelude.{◌≡◌, refl, true, false, Ensures}
use quiet_lwip.Driver.Lifecycle.{opened, running, unstarted, joined, Interface, destroy}
use quiet_lwip.Driver.Lifecycle.Owned.{live, IsOpen, destroy_lem}

abbrev in_use : Interface
in_use = record {
  allocated = true;
  listed = true;
  up = true;
  driver = true;
  send_temp = true;
  recv_temp = true;
  encoder = opened;
  decoder = opened;
  thread = running;
}

in_use-IsOpen : IsOpen in_use
in_use-IsOpen = record {
  allocated = refl;
  listed = refl;
  encoder = refl;
  decoder = refl;
  thread = refl;
}

destroy_lem_example :
    Ensures (destroy in_use) (λ j. (live j ≡ 3) × (j.listed ≡ false) × (j.thread ≡ joined))
destroy_lem_example = destroy_lem in_use in_use-IsOpen

abbrev without_thread : Interface
without_thread = record in_use { thread = unstarted }
