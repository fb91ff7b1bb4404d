-- ===== src/Connection/Connect.antt =====
-- `convert_str_to_sa` of src/transport-helpers.cpp, and the `connectTo` of src/transport.cpp and
-- src/transport-ssl.cpp. What the resolver, the sockets and gnutls answer is a parameter.
use flight_safety_system.Base.{
  ℕ, ◌≡◌, ◌↔◌, Bool, true, false, ◌||◌, List, [], ◌∷◌, Option, none, some, arith, if◌then◌else◌, be,
  Option-cases, inl, inr, subst,
}
use flight_safety_system.Floats.{Floats}
use flight_safety_system.Connection.{Connection}

-- `sa_family_t`: the two families that the code knows, and any other.
pub data Family : Type 0 where
  inet inet6 : Family
  other : ℕ → Family

-- `struct sockaddr_storage`: the bytes of the address, and of the port as they stand in memory.
pub record SockAddr : Type 0 where
  pub family : Family
  pub address : List ℕ
  pub port : List ℕ

-- What the resolver answers for a text, and the kernel and gnutls for a connection. `socket` is
-- `none` for -1; `connect` answers whether its result is not negative; `handshake`, for the host
-- name that the certificate must hold, whether its result is not negative, and `none` if it throws.
pub record Network : Type 0 where
  pub inet_pton_v4 : List ℕ → Option (List ℕ)
  pub inet_pton_v6 : List ℕ → Option (List ℕ)
  pub getaddrinfo : List ℕ → Option SockAddr
  pub socket : Option ℕ
  pub connect : Option ℕ → SockAddr → Bool
  pub handshake : List ℕ → Option Bool

-- `sin_port = ntohs(port)`, of the families that have one.
unfoldable pub set_port : ℕ → SockAddr → SockAddr
set_port port sa = elim sa.family [
  | Family.inet ↦ record sa { port = be 2 port }
  | Family.inet6 ↦ record sa { port = be 2 port }
  | Family.other f ↦ sa
]

-- The address, before its port is set: as IPv4, as IPv6, and by the name service.
unfoldable pub resolve : Network → List ℕ → Option SockAddr
resolve net addr = elim (net.inet_pton_v4 addr) [
  | some ia ↦ some (record { family = Family.inet; address = ia; port = 0 ∷ 0 ∷ [] })
  | none ↦ elim (net.inet_pton_v6 addr) [
    | some ia ↦ some (record { family = Family.inet6; address = ia; port = 0 ∷ 0 ∷ [] })
    | none ↦ net.getaddrinfo addr
  ]
]

unfoldable pub convert_str_to_sa : Network → List ℕ → ℕ → Option SockAddr
unfolding resolve set_port
convert_str_to_sa net addr port = elim (resolve net addr) [
  | none ↦ none
  | some sa ↦ some (set_port port sa)
]

module _ {F : Floats} (net : Network) where
  -- A socket is opened where the connection has none yet.
  unfoldable pub open_socket : Connection F → Connection F
  open_socket c = elim c.fd [ none ↦ record c { fd = net.socket } | some fd ↦ c ]

  -- `fss_connection::connectTo` of src/transport.cpp.
  unfoldable pub connect_plain : Connection F → List ℕ → ℕ → Connection F × Bool
  unfolding open_socket convert_str_to_sa
  connect_plain c address port = elim (convert_str_to_sa net address port) [
    | none ↦ (c, false)
    | some remote ↦
        let c = open_socket c in
        if net.connect c.fd remote then (record c { receiving = true }, true) else (c, false)
  ]

  -- `fss_connection_client::setupSSL`: an exception leaves the result negative.
  unfoldable pub setup_ssl : Connection F → Bool
  setup_ssl c = elim (net.handshake c.hostname) [ none ↦ false | some ok ↦ ok ]

  -- The end of the TLS `connectTo`: the thread is started on a usable session.
  unfoldable pub start_session : Connection F → Connection F × Bool
  unfolding setup_ssl
  start_session c =
      let usable = setup_ssl c in
      (record c { usable = usable; receiving = c.receiving || usable }, usable)

  -- `fss_connection_client::connectTo` of src/transport-ssl.cpp.
  unfoldable pub connect_to : Connection F → List ℕ → ℕ → Connection F × Bool
  unfolding open_socket convert_str_to_sa start_session
  connect_to c address port =
      let c = record c { hostname = address } in
      elim (convert_str_to_sa net address port) [
        | none ↦ (c, false)
        | some remote ↦
            let c = open_socket c in if net.connect c.fd remote then start_session c else (c, false)
      ]

-- The address that a text stands for, as a relation: the first of the three readings that succeeds,
-- with the port in network order if it is of one of the two families.
pub data Resolves (net : Network) (addr : List ℕ) (port : ℕ) : SockAddr → Type 0 where
  as_v4 :
      (ia : List ℕ)
      → net.inet_pton_v4 addr ≡ some ia
      → Resolves net addr port (record { family = Family.inet; address = ia; port = be 2 port })
  as_v6 :
      (ia : List ℕ)
      → net.inet_pton_v4 addr ≡ none
      → net.inet_pton_v6 addr ≡ some ia
      → Resolves net addr port (record { family = Family.inet6; address = ia; port = be 2 port })
  by_name :
      (sa : SockAddr)
      → net.inet_pton_v4 addr ≡ none
      → net.inet_pton_v6 addr ≡ none
      → net.getaddrinfo addr ≡ some sa
      → Resolves net addr port (set_port port sa)

resolve-Resolves :
    (net : Network) (addr : List ℕ) (port : ℕ) (sa : SockAddr)
    → resolve net addr ≡ some sa
    → Resolves net addr port (set_port port sa)
unfolding resolve set_port
resolve-Resolves net addr port sa e = elim (Option-cases (net.inet_pton_v4 addr)) [
  | inr (ia, v4) ↦
      let found : SockAddr = record { family = Family.inet; address = ia; port = 0 ∷ 0 ∷ [] } in
      let same : found ≡ sa = ground arith in
      subst (λ x. Resolves net addr port (set_port port x)) same (Resolves.as_v4 ia v4)
  | inl no_v4 ↦ elim (Option-cases (net.inet_pton_v6 addr)) [
    | inr (ia, v6) ↦
        let found : SockAddr = record { family = Family.inet6; address = ia; port = 0 ∷ 0 ∷ [] } in
        let same : found ≡ sa = ground arith in
        subst (λ x. Resolves net addr port (set_port port x)) same (Resolves.as_v6 ia no_v4 v6)
    | inl no_v6 ↦ Resolves.by_name sa no_v4 no_v6 (ground arith)
  ]
]

Resolves-convert :
    (net : Network) (addr : List ℕ) (port : ℕ) (sa : SockAddr)
    → Resolves net addr port sa
    → convert_str_to_sa net addr port ≡ some sa
unfolding convert_str_to_sa
Resolves-convert net addr port _ (Resolves.as_v4 ia v4) = rw (v4, convert_str_to_sa)
Resolves-convert net addr port _ (Resolves.as_v6 ia v4 v6) = rw (v4, convert_str_to_sa, v6)
Resolves-convert net addr port _ (Resolves.by_name sa v4 v6 e) = rw (v4, convert_str_to_sa, v6, e)

convert-Resolves :
    (net : Network) (addr : List ℕ) (port : ℕ) (sa : SockAddr)
    → convert_str_to_sa net addr port ≡ some sa
    → Resolves net addr port sa
unfolding convert_str_to_sa
convert-Resolves net addr port sa e = elim (Option-cases (resolve net addr)) [
  | inl fails ↦ absurd (ground arith)
  | inr (found, r) ↦
      subst (Resolves net addr port) (ground arith) (resolve-Resolves net addr port found r)
]

-- `convert_str_to_sa` gives an address exactly when the text reads as that address: as IPv4, else as
-- IPv6, else by the name service, with the port in network order.
pub convert_str_to_sa-Resolves :
    (net : Network) (addr : List ℕ) (port : ℕ) (sa : SockAddr)
    → (convert_str_to_sa net addr port ≡ some sa) ↔ Resolves net addr port sa
convert_str_to_sa-Resolves net addr port sa =
    (convert-Resolves net addr port sa, Resolves-convert net addr port sa)

-- Which sockets a connection attempt may use: the one it has, or a new one.
abbrev pub socket_of : {F : Floats} → Network → Connection F → Option ℕ
socket_of net c = elim c.fd [ none ↦ net.socket | some fd ↦ some fd ]

-- What has to succeed for a TLS connection: the name is resolved, the socket connects, and the
-- handshake for that name succeeds.
pub record Connects {F : Floats} (net : Network) (c : Connection F) (address : List ℕ) (port : ℕ)
    : Type 0 where
  pub remote : SockAddr
  pub resolved : convert_str_to_sa net address port ≡ some remote
  pub connected : net.connect (socket_of net c) remote ≡ true
  pub shaken : net.handshake address ≡ some true

module _ {F : Floats} (net : Network) (c : Connection F) (address : List ℕ) (port : ℕ) where
  connect_to-Connects_lem : Connects net c address port → (connect_to net c address port).1 ≡ true
  unfolding connect_to
  connect_to-Connects_lem h =
      let e = h.resolved in let k = h.connected in let s = h.shaken in ground arith

  Connects-connect_to : (connect_to net c address port).1 ≡ true → Connects net c address port
  unfolding connect_to
  Connects-connect_to h = elim (Option-cases (convert_str_to_sa net address port)) [
    | inl fails ↦ absurd (ground arith)
    | inr (remote, e) ↦ record {
      remote = remote;
      resolved = e;
      connected = ground arith;
      shaken = ground arith;
    }
  ]

  -- A TLS connection that is not in use is connected exactly when the name is resolved, the socket
  -- connects and the handshake for that name succeeds; the session is usable and the receiving
  -- thread runs exactly then.
  pub connect_to-Connects :
      c.usable ≡ false
      → c.receiving ≡ false
      → (((connect_to net c address port).1 ≡ true) ↔ Connects net c address port)
        × ((connect_to net c address port).0.usable ≡ (connect_to net c address port).1)
        × ((connect_to net c address port).0.receiving ≡ (connect_to net c address port).1)
  unfolding connect_to
  connect_to-Connects idle quiet =
      ((Connects-connect_to, connect_to-Connects_lem), ground arith, ground arith)
