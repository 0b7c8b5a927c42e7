-- ===== src/Driver/Setup/Tests.antt =====
-- Three creations by src/driver.c and src/driver_portaudio.c.
use quiet_lwip.Prelude.{◌≡◌, refl, List, [], ◌∷◌, Option, none, some, Bool, true, false, arith}
use quiet_lwip.Driver.Setup.{Addresses, Creation, unstarted_stack, create_all}
use quiet_lwip.Driver.Setup.Once.{AllReturn, create_all_lem}

-- `netif_add` stores zeros where it is given no addresses.
abbrev stores : Option Addresses → Addresses
stores none = record { ip_addr = 0; netmask = 0; gw = 0 }
stores (some a) = a

-- 192.168.0.8, or 192.168.0.2 without a microphone
abbrev server : Creation
server = record {
  devices = true;
  hardware_addr = 1 ∷ 2 ∷ 3 ∷ 4 ∷ 5 ∷ 7 ∷ [];
  local_address = 0xc0a80008;
  netmask = 0xffffff00;
  gateway = 0xc0a80001;
}

abbrev client : Creation
client = record server { devices = false; local_address = 0xc0a80002 }

abbrev creations : List (Bool × Creation)
creations = (true, server) ∷ (true, client) ∷ (false, server) ∷ []

create_all_lem_example :
    AllReturn creations (create_all stores creations unstarted_stack).0
    × ((create_all stores creations unstarted_stack).1.tcpip_inits ≡ 1)
create_all_lem_example =
    create_all_lem stores (λ a. refl) creations (omega arith, (omega arith, (omega arith, tt)))
