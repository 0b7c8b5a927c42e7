-- ===== src/Driver/Setup/Once.antt =====
-- The interfaces of src/driver.c and src/driver_portaudio.c as their user gets them, and the one start of
-- lwIP.
use quiet_lwip.Prelude.{
  ◌≡◌, ◌≢◌, refl, ap, ◌∙◌, List, [], ◌∷◌, Option, none, some, Bool, true, false, take, length, min,
  if◌then◌else◌, arith,
}
use quiet_lwip.Driver.Setup.{
  Stack, unstarted_stack, quiet_lwip_init, Addresses, Netif, set_fields, Creation, given,
  lwip_create, lwip_portaudio_create, create_all, get_local_address, get_netmask, get_gateway,
}

-- An interface as its user finds it: the name, the first six bytes of the hardware address, the three
-- addresses, and whether it is up.
pub record IsConfigured (c : Creation) (n : Netif) : Type 0 where
  pub named : n.name ≡ b'q' ∷ b'u' ∷ []
  pub hardware : n.hwaddr ≡ take 6 c.hardware_addr
  pub local_address : get_local_address n ≡ c.local_address
  pub netmask : get_netmask n ≡ c.netmask
  pub gateway : get_gateway n ≡ c.gateway
  pub up : n.up ≡ true

-- The interface of a creation, if there is one.
abbrev pub Returns : Creation → Option Netif → Type 0
Returns c none = c.devices ≡ false
Returns c (some n) = (c.devices ≡ true) × IsConfigured c n

abbrev pub AllReturn : List (Bool × Creation) → List (Option Netif) → Type 0
AllReturn [] [] = Unit
AllReturn (c ∷ cs) (r ∷ rs) = Returns c.1 r × AllReturn cs rs
AllReturn _ _ = ⊥

abbrev pub AllAddressed : List (Bool × Creation) → Type 0
AllAddressed [] = Unit
AllAddressed (c ∷ cs) = (c.1.local_address ≢ 0) × AllAddressed cs

module _ (stores : Option Addresses → Addresses)
    (as_given : (a : Addresses) → stores (some a) ≡ a) where
  create-Returns :
      (portaudio : Bool) (c : Creation) (s : Stack)
      → c.local_address ≢ 0
      → Returns c
          (if portaudio then (lwip_portaudio_create stores c s).0 else (lwip_create stores c s).0)
  unfolding lwip_create lwip_portaudio_create set_fields get_local_address get_netmask get_gateway
  create-Returns true c s addressed = ground (arith, as_given (given c))
  create-Returns false c s addressed = ground (arith, as_given (given c))

  -- The stack after a creation.
  created_stack :
      (portaudio : Bool) (c : Creation) (s : Stack)
      → (if portaudio then lwip_portaudio_create stores c s else lwip_create stores c s).1
        ≡ quiet_lwip_init s
  unfolding lwip_create lwip_portaudio_create
  created_stack true c s = ground arith
  created_stack false c s = ground arith

  create_all-AllReturn :
      (cs : List (Bool × Creation)) (s : Stack)
      → AllAddressed cs
      → AllReturn cs (create_all stores cs s).0
  unfolding create_all
  create_all-AllReturn [] s addressed = tt
  create_all-AllReturn ((true, c) ∷ cs) s (here, later) = (
    create-Returns true c s here,
    create_all-AllReturn cs (lwip_portaudio_create stores c s).1 later,
  )
  create_all-AllReturn ((false, c) ∷ cs) s (here, later) =
      (create-Returns false c s here, create_all-AllReturn cs (lwip_create stores c s).1 later)

  -- Once lwIP has been started, nothing starts it again.
  create_all_started :
      (cs : List (Bool × Creation)) (s : Stack)
      → s.has_lwip_init ≡ true
      → (create_all stores cs s).1 ≡ s
  unfolding create_all quiet_lwip_init
  create_all_started [] s e = refl
  create_all_started ((portaudio, c) ∷ cs) s e =
      let same : (if portaudio then lwip_portaudio_create stores c s else lwip_create stores c s).1
          ≡ s =
        created_stack portaudio c s ∙ ground (arith, e) in
      create_all_started cs _ (ap (λ t. t.has_lwip_init) same ∙ e) ∙ same

  -- Whatever interfaces are created, by either driver, one after the other, lwIP is started once, at the
  -- first of them. Each creation returns an interface exactly if its two devices can be created: it is up,
  -- has the name "qu" and the first six bytes of the hardware address, and returns the three addresses
  -- that it was created with. `netif_add` stores the addresses that it is given, and no local address is 0.
  pub create_all_lem :
      (cs : List (Bool × Creation))
      → AllAddressed cs
      → AllReturn cs (create_all stores cs unstarted_stack).0
        × ((create_all stores cs unstarted_stack).1.tcpip_inits ≡ min 1 (length cs))
  unfolding create_all quiet_lwip_init
  create_all_lem cs addressed = (create_all-AllReturn cs unstarted_stack addressed, once cs)
    where
      once :
          (ds : List (Bool × Creation))
          → (create_all stores ds unstarted_stack).1.tcpip_inits ≡ min 1 (length ds)
      once [] = refl
      once ((portaudio, c) ∷ ds) =
          let first = created_stack portaudio c unstarted_stack in
          ap (λ t. t.tcpip_inits)
            (create_all_started ds
              (if portaudio
                then lwip_portaudio_create stores c unstarted_stack
                else lwip_create stores c unstarted_stack).1
              (ap (λ t. t.has_lwip_init) first))
          ∙ (ap (λ t. t.tcpip_inits) first ∙ omega arith)
