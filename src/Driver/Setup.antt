-- ===== src/Driver/Setup.antt =====
-- The start of lwIP and the fields of a new interface in src/driver.c and src/driver_portaudio.c. What
-- `netif_add` of lwIP stores as the addresses is a parameter. The memory and the threads of an interface
-- are in Driver.Lifecycle, its sizes in Driver.Transmit.
pub mod Once
mod Tests
use quiet_lwip.Prelude.{
  ℕ, suc, ◌+◌, ◌≡◌, ◌≢◌, refl, ap, ◌∙◌, List, [], ◌∷◌, map, Option, none, some, Bool, true, false,
  not, take, ◌==◌, if◌then◌else◌, arith,
}

-- The static variable of `quiet_lwip_init`, and how often `tcpip_init` has been called.
pub record Stack : Type 0 where
  pub has_lwip_init : Bool
  pub tcpip_inits : ℕ

abbrev pub unstarted_stack : Stack
unstarted_stack = record { has_lwip_init = false; tcpip_inits = 0 }

unfoldable pub quiet_lwip_init : Stack → Stack
quiet_lwip_init s =
    if not s.has_lwip_init
    then record { has_lwip_init = true; tcpip_inits = s.tcpip_inits + 1 }
    else s

pub record Addresses : Type 0 where
  pub ip_addr : ℕ
  pub netmask : ℕ
  pub gw : ℕ

-- The fields of `struct netif` that the drivers set, or let be set.
pub record Netif : Type 0 where
  pub name : List ℕ
  pub hwaddr : List ℕ
  pub hwaddr_len : ℕ
  pub flags : ℕ
  pub addresses : Addresses
  pub up : Bool

-- ETHARP_HWADDR_LEN, and NETIF_FLAG_BROADCAST | NETIF_FLAG_ETHARP | NETIF_FLAG_LINK_UP
abbrev pub etharp_hwaddr_len : ℕ
etharp_hwaddr_len = 6

abbrev pub netif_flags : ℕ
netif_flags = 2 + 32 + 16

-- What both initialisations set, with `conf->hardware_addr`.
unfoldable pub set_fields : List ℕ → Addresses → Netif
set_fields hardware_addr addresses = record {
  name = b'q' ∷ b'u' ∷ [];
  hwaddr = take 6 hardware_addr;
  hwaddr_len = etharp_hwaddr_len;
  flags = netif_flags;
  addresses = addresses;
  up = false;
}

-- `netif_set_up`
abbrev pub set_up : Netif → Netif
set_up n = record n { up = true }

-- The arguments of a creation, and whether its two devices can be created.
pub record Creation : Type 0 where
  pub devices : Bool
  pub hardware_addr : List ℕ
  pub local_address : ℕ
  pub netmask : ℕ
  pub gateway : ℕ

abbrev pub given : Creation → Addresses
given c = record { ip_addr = c.local_address; netmask = c.netmask; gw = c.gateway }

module _ (stores : Option Addresses → Addresses) where
  -- `quiet_lwip_create`: without a local address `netif_add` is given none.
  unfoldable pub lwip_create : Creation → Stack → Option Netif × Stack
  unfolding quiet_lwip_init set_fields
  lwip_create c s =
      let t = quiet_lwip_init s in
      let addresses = stores (if c.local_address == 0 then none else some (given c)) in
      let interface = set_fields c.hardware_addr addresses in
      if c.devices
      then (some (if c.local_address == 0 then interface else set_up interface), t)
      else (none, t)

  -- `quiet_lwip_portaudio_create`
  unfoldable pub lwip_portaudio_create : Creation → Stack → Option Netif × Stack
  unfolding quiet_lwip_init set_fields
  lwip_portaudio_create c s =
      let t = quiet_lwip_init s in
      if c.devices
      then (some (set_up (set_fields c.hardware_addr (stores (some (given c))))), t)
      else (none, t)

  -- Some creations, one after the other, by the first driver or, where a flag says so, by the second.
  unfoldable pub create_all : List (Bool × Creation) → Stack → List (Option Netif) × Stack
  unfolding lwip_create lwip_portaudio_create
  create_all [] s = ([], s)
  create_all ((portaudio, c) ∷ cs) s =
      let r = if portaudio then lwip_portaudio_create c s else lwip_create c s in
      let rest = create_all cs r.1 in (r.0 ∷ rest.0, rest.1)

-- `quiet_lwip_get_local_address`, `quiet_lwip_get_netmask` and `quiet_lwip_get_gateway`
unfoldable pub get_local_address : Netif → ℕ
get_local_address n = n.addresses.ip_addr

unfoldable pub get_netmask : Netif → ℕ
get_netmask n = n.addresses.netmask

unfoldable pub get_gateway : Netif → ℕ
get_gateway n = n.addresses.gw
