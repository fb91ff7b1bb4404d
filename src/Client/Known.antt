-- ===== src/Client/Known.antt =====
-- `updateServers` of src/client-ssl.cpp: which servers a client knows after a list of servers.
use flight_safety_system.Base.{
  ℕ, ◌+◌, ◌<◌, ◌≡◌, refl, sym, ap, ◌∙◌, ◌⊎◌, inl, inr, Bool, true, false, not, ◌&&◌, List, [], ◌∷◌,
  ◌++◌, none, arith, ◌==◌, if◌then◌else◌, contains, contains-append, update, ==_iff, Bool-cases,
  bytes_eq, bytes_eq_iff, subst,
}
use flight_safety_system.Floats.{Floats}
use flight_safety_system.Client.{FssServer, connected, new_server}
use flight_safety_system.Client.Servers.{
  FssClient, connect_to, is_at, server_list_matches, update_server, update_servers,
}
use flight_safety_system.Client.Extends.{Extends, Extends-refl, Extends-trans}

-- An address and port stand in a list of servers.
abbrev pub listed : List (List ℕ × ℕ) → List ℕ → ℕ → Bool
listed [] address port = false
listed ((a, k) ∷ entries) address port =
    if bytes_eq a address && k == port then true else listed entries address port

module _ {F : Floats} where
  -- How many of the listed servers are at an address and port.
  abbrev pub known_in : (ℕ → FssServer F) → List ℕ → List ℕ → ℕ → ℕ
  known_in objects [] address port = 0
  known_in objects (p ∷ ps) address port =
      if is_at (objects p) address port
      then known_in objects ps address port + 1
      else known_in objects ps address port

  -- How many servers a client has for an address and port.
  abbrev pub known : FssClient F → List ℕ → ℕ → ℕ
  known c address port =
      known_in c.objects c.servers address port
      + known_in c.objects c.reconnect_servers address port

  -- Both lists hold objects that are in use.
  pub record InUse (c : FssClient F) : Type 0 where
    pub servers : (p : ℕ) → contains p c.servers ≡ true → p < c.next_object
    pub reconnect_servers : (p : ℕ) → contains p c.reconnect_servers ≡ true → p < c.next_object

  known_in-append :
      (objects : ℕ → FssServer F) (ps qs : List ℕ) (address : List ℕ) (port : ℕ)
      → known_in objects (ps ++ qs) address port
        ≡ known_in objects ps address port + known_in objects qs address port
  known_in-append objects [] qs address port = omega arith
  known_in-append objects (p ∷ ps) qs address port =
      let ih = known_in-append objects ps qs address port in ground arith

  -- An object that is not listed may change.
  known_in-update :
      (objects : ℕ → FssServer F) (n : ℕ) (s : FssServer F) (ps : List ℕ) (address : List ℕ)
      (port : ℕ)
      → ((p : ℕ) → contains p ps ≡ true → p < n)
      → known_in (update objects n s) ps address port ≡ known_in objects ps address port
  known_in-update objects n s [] address port below = refl
  known_in-update objects n s (p ∷ ps) address port below =
      let ih = known_in-update objects n s ps address port (λ q h. below q (ground arith)) in
      let b : p < n = below p (let e = ==_iff p p in ground arith) in ground arith

  server_list_matches-known_in :
      (objects : ℕ → FssServer F) (ps : List ℕ) (address : List ℕ) (port : ℕ)
      → server_list_matches objects ps address port ≡ not (known_in objects ps address port == 0)
  unfolding server_list_matches
  server_list_matches-known_in objects [] address port = refl
  server_list_matches-known_in objects (p ∷ ps) address port =
      let ih = server_list_matches-known_in objects ps address port in ground arith

  -- The client behind `connectTo` without connecting.
  abbrev pub added : FssClient F → List ℕ → ℕ → FssClient F
  added c address port = record c {
    objects = update c.objects c.next_object (new_server address port c.files);
    next_object = c.next_object + 1;
    reconnect_servers = c.reconnect_servers ++ c.next_object ∷ [];
  }

  connect_to-added :
      (c : FssClient F) (address : List ℕ) (port : ℕ)
      → connect_to c address port none ≡ added c address port
  unfolding connect_to connected
  connect_to-added c address port = let e = ==_iff c.next_object c.next_object in ground arith

  new_server-is_at :
      (c : FssClient F) (a : List ℕ) (k : ℕ) (address : List ℕ) (port : ℕ)
      → known_in
          (update c.objects c.next_object (new_server a k c.files))
          (c.next_object ∷ [])
          address
          port
        ≡ (if bytes_eq a address && k == port then 1 else 0)
  unfolding is_at new_server
  new_server-is_at c a k address port = let e = ==_iff c.next_object c.next_object in ground arith

  known-added :
      (c : FssClient F) (a : List ℕ) (k : ℕ) (address : List ℕ) (port : ℕ)
      → InUse c
      → known (added c a k) address port
        ≡ known c address port + (if bytes_eq a address && k == port then 1 else 0)
  known-added c a k address port u =
      let s = new_server {F = F} a k c.files in
      let x = known_in-update c.objects c.next_object s c.servers address port u.servers in
      let y =
        known_in-update c.objects c.next_object s c.reconnect_servers address port
          u.reconnect_servers in
      let z =
        known_in-append (update c.objects c.next_object s) c.reconnect_servers (c.next_object ∷ [])
          address port in
      let w = new_server-is_at c a k address port in omega (arith, x, y, z, w)

  added-InUse : (c : FssClient F) (a : List ℕ) (k : ℕ) → InUse c → InUse (added c a k)
  added-InUse c a k u = record {
    servers = λ p h. (let b = u.servers p h in omega arith);
    reconnect_servers = λ p h.
        (let e = contains-append p c.next_object c.reconnect_servers in
          elim (Bool-cases (contains p c.reconnect_servers)) [
            | inl old ↦ (let b = u.reconnect_servers p old in omega arith)
            | inr new ↦ ground arith
          ]);
  }

  matching-known :
      (c : FssClient F) (a : List ℕ) (k : ℕ) (address : List ℕ) (port : ℕ)
      → (bytes_eq a address && k == port) ≡ true
      → known c a k ≡ known c address port
  matching-known c a k address port h =
      let text = (bytes_eq_iff a address).0 (ground arith) in
      let number = (==_iff k port).0 (ground arith) in
      ap (λ x. known c x k) text ∙ ap (known c address) number

  update_server_new :
      (c : FssClient F) (a : List ℕ) (k : ℕ)
      → known c a k ≡ 0
      → update_server c (a, k) ≡ added c a k
  unfolding update_server
  update_server_new c a k h =
      let x = server_list_matches-known_in c.objects c.servers a k in
      let y = server_list_matches-known_in c.objects c.reconnect_servers a k in
      let z = connect_to-added c a k in ground arith

  update_server_old :
      (c : FssClient F) (a : List ℕ) (k : ℕ) → 0 < known c a k → update_server c (a, k) ≡ c
  unfolding update_server
  update_server_old c a k h =
      let x = server_list_matches-known_in c.objects c.servers a k in
      let y = server_list_matches-known_in c.objects c.reconnect_servers a k in ground arith

  update_server-known :
      (c : FssClient F) (a : List ℕ) (k : ℕ) (address : List ℕ) (port : ℕ)
      → InUse c
      → known (update_server c (a, k)) address port ≡ (
          if known c address port == 0
          then (if bytes_eq a address && k == port then 1 else 0)
          else known c address port)
  update_server-known c a k address port u =
      let same = matching-known c a k address port in
      elim (Bool-cases (known c a k == 0)) [
        | inl new ↦
            ap (λ (x : FssClient F). known x address port) (update_server_new c a k (ground arith))
            ∙ known-added c a k address port u
            ∙ elim (Bool-cases (bytes_eq a address && k == port)) [
              | inl match ↦ let e = same match in ground arith
              | inr other ↦ ground arith
            ]
        | inr old ↦
            ap (λ (x : FssClient F). known x address port) (update_server_old c a k (ground arith))
            ∙ elim (Bool-cases (bytes_eq a address && k == port)) [
              | inl match ↦ let e = same match in ground arith
              | inr other ↦ ground arith
            ]
      ]

  added-Extends : (c : FssClient F) (a : List ℕ) (k : ℕ) → Extends c (added c a k)
  added-Extends c a k = record {
    servers = refl;
    calls = refl;
    in_use = omega arith;
    objects = λ q h. ground arith;
    added_servers = c.next_object ∷ [];
    reconnect_servers = refl;
  }

  -- A round of `updateServers` adds the server or leaves the client as it is.
  pub update_server-cases :
      (c : FssClient F) (a : List ℕ) (k : ℕ)
      → (update_server c (a, k) ≡ added c a k) ⊎ (update_server c (a, k) ≡ c)
  update_server-cases c a k = elim (Bool-cases (known c a k == 0)) [
    | inl new ↦ inl (update_server_new c a k (ground arith))
    | inr old ↦ inr (update_server_old c a k (ground arith))
  ]

  update_server-InUse :
      (c : FssClient F) (a : List ℕ) (k : ℕ) → InUse c → InUse (update_server c (a, k))
  update_server-InUse c a k u = elim (update_server-cases c a k) [
    | inl new ↦ subst InUse (sym new) (added-InUse c a k u)
    | inr old ↦ subst InUse (sym old) u
  ]

  update_server-Extends :
      (c : FssClient F) (a : List ℕ) (k : ℕ) → Extends c (update_server c (a, k))
  update_server-Extends c a k = elim (update_server-cases c a k) [
    | inl new ↦ subst (Extends c) (sym new) (added-Extends c a k)
    | inr old ↦ subst (Extends c) (sym old) (Extends-refl c)
  ]

  known_servers :
      (entries : List (List ℕ × ℕ)) (c : FssClient F) (address : List ℕ) (port : ℕ)
      → InUse c
      → known (update_servers c entries) address port ≡ (
          if known c address port == 0
          then (if listed entries address port then 1 else 0)
          else known c address port)
  unfolding update_servers
  known_servers [] c address port u = ground arith
  known_servers ((a, k) ∷ entries) c address port u =
      let first = update_server-known c a k address port u in
      let rest =
        known_servers entries (update_server c (a, k)) address port (update_server-InUse c a k u) in
      rest ∙ ground arith

  update_servers-Extends :
      (entries : List (List ℕ × ℕ)) (c : FssClient F) → Extends c (update_servers c entries)
  unfolding update_servers
  update_servers-Extends [] c = Extends-refl c
  update_servers-Extends ((a, k) ∷ entries) c =
      Extends-trans (update_server-Extends c a k)
        (update_servers-Extends entries (update_server c (a, k)))

  -- A list of servers from a server: for each address and port, a client that knew servers there
  -- knows as many as before, and one that knew none knows one if it stands in the list, however
  -- often, and none if not. The servers and objects that the client had stay, and the new servers
  -- wait behind the others.
  pub update_servers-known :
      (c : FssClient F) (entries : List (List ℕ × ℕ))
      → InUse c
      → ((address : List ℕ) (port : ℕ)
          → known (update_servers c entries) address port ≡ (
              if known c address port == 0
              then (if listed entries address port then 1 else 0)
              else known c address port))
        × Extends c (update_servers c entries)
  update_servers-known c entries u =
      (λ address port. known_servers entries c address port u, update_servers-Extends entries c)
