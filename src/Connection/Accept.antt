-- ===== src/Connection/Accept.antt =====
-- The server's side of new connections: `fss_connection_server` of src/transport-ssl.cpp and
-- `fss_listen` of src/transport.cpp.
use flight_safety_system.Base.{
  ℕ, Bool, true, false, not, List, [], ◌∷◌, ◌++◌, Option, none, some, if◌then◌else◌, ◌≡◌, refl, sym,
  ap, ◌∙◌, append-nil, append_assoc,
}
use flight_safety_system.Floats.{Floats}
use flight_safety_system.Connection.{Connection, new_connection}
use flight_safety_system.Connection.Names.{certificate_names}

-- What gnutls answers for an accepted socket: whether the result of the handshake is not negative
-- (`none` if it throws), and the distinguished names of the peer's certificates, if there are any.
pub record Peer : Type 0 where
  pub handshake : Option Bool
  pub peers_certificate : Option (List (List ℕ))

-- `fss_connection_server::setupSSL`.
unfoldable pub setup_ssl_server : {F : Floats} → Peer → Connection F → Connection F × Bool
setup_ssl_server peer c = elim peer.handshake [
  | none ↦ (c, false)
  | some false ↦ (c, false)
  | some true ↦ elim peer.peers_certificate [
    | none ↦ (c, true)
    | some dns ↦ (record c { possible_names = c.possible_names ++ certificate_names dns }, true)
  ]
]

-- The constructor of `fss_connection_server`, which `newConnection` calls.
unfoldable pub accept_connection : {F : Floats} → Peer → ℕ → Connection F
unfolding setup_ssl_server new_connection
accept_connection peer t_fd =
    let (c, usable) = setup_ssl_server peer (record new_connection { fd = some t_fd }) in
    record c { usable = usable; receiving = usable }

-- What the kernel answers to `socket`, `bind` and `listen`.
pub record ListenSocket : Type 0 where
  pub socket : Option ℕ
  pub bind : Bool
  pub listen : Bool

-- `startListening`: the connection with the socket, and the result.
unfoldable pub start_listening : {F : Floats} → ListenSocket → Connection F → Connection F × Bool
start_listening k c =
    let c : Connection _ = elim c.fd [ none ↦ record c { fd = k.socket } | some fd ↦ c ] in
    if not k.bind
    then (c, false)
    else if not k.listen
    then (c, false)
    else (record c { receiving = true }, true)

-- What a call of `accept` returns.
pub data Accepted : Type 0 where
  new_fd : ℕ → Accepted
  bad_fd failed : Accepted

-- How `fss_listen::processMessages` stands.
pub data Listening {ℓ} (S : Type ℓ) : Type ℓ where
  returned : S → Listening S
  waiting : S → Listening S

-- The loop of `fss_listen::processMessages`. Each round is the test of the file descriptor, which
-- `disconnect` clears, and the result of `accept`; `take` is what is done with a new socket.
unfoldable pub listen_loop {ℓ} :
    {S : Type ℓ} → (S → ℕ → S) → S → List (Bool × Accepted) → Listening S
listen_loop take s [] = Listening.waiting s
listen_loop take s ((false, r) ∷ rounds) = Listening.returned s
listen_loop take s ((true, Accepted.bad_fd) ∷ rounds) = Listening.returned s
listen_loop take s ((true, Accepted.failed) ∷ rounds) = listen_loop take s rounds
listen_loop take s ((true, Accepted.new_fd fd) ∷ rounds) = listen_loop take (take s fd) rounds

-- With a callback the new connection is handed to it, else the socket is closed.
unfoldable pub take_socket {ℓ} :
    {F : Floats} {S : Type ℓ}
    → Option (S → Connection F → S)
    → (ℕ → Peer)
    → S × List ℕ
    → ℕ
    → S × List ℕ
unfolding accept_connection
take_socket none peers (s, closed) fd = (s, closed ++ fd ∷ [])
take_socket (some cb) peers (s, closed) fd = (cb s (accept_connection (peers fd) fd), closed)

-- Calls of `accept` while the socket is open; `none` is a call that fails.
abbrev pub rounds_of : List (Option ℕ) → List (Bool × Accepted)
rounds_of [] = []
rounds_of (none ∷ rs) = (true, Accepted.failed) ∷ rounds_of rs
rounds_of (some fd ∷ rs) = (true, Accepted.new_fd fd) ∷ rounds_of rs

-- The sockets that the calls bring.
abbrev pub sockets_of : List (Option ℕ) → List ℕ
sockets_of [] = []
sockets_of (none ∷ rs) = sockets_of rs
sockets_of (some fd ∷ rs) = fd ∷ sockets_of rs

abbrev pub take_all {ℓ} : {S : Type ℓ} → (S → ℕ → S) → S → List ℕ → S
take_all take s [] = s
take_all take s (fd ∷ fds) = take_all take (take s fd) fds

listen_loop-take_all {ℓ} :
    {S : Type ℓ} (take : S → ℕ → S) (rs : List (Option ℕ)) (s : S) (r : Accepted)
    (rest : List (Bool × Accepted))
    → listen_loop take s (rounds_of rs ++ (false, r) ∷ rest)
      ≡ Listening.returned (take_all take s (sockets_of rs))
unfolding listen_loop
listen_loop-take_all take [] s r rest = refl
listen_loop-take_all take (none ∷ rs) s r rest = listen_loop-take_all take rs s r rest
listen_loop-take_all take (some fd ∷ rs) s r rest = listen_loop-take_all take rs (take s fd) r rest

module _ {ℓ} (F : Floats) {S : Type ℓ} (peers : ℕ → Peer) where
  take_all-closed :
      (fds : List ℕ) (s : S) (closed : List ℕ)
      → take_all (take_socket {F = F} none peers) (s, closed) fds ≡ (s, closed ++ fds)
  unfolding take_socket
  take_all-closed [] s closed = ap (λ x. (s, x)) (sym (append-nil closed))
  take_all-closed (fd ∷ fds) s closed =
      take_all-closed fds s (closed ++ fd ∷ [])
      ∙ ap (λ x. (s, x)) (append_assoc closed (fd ∷ []) fds)

  take_all-handed :
      (cb : S → Connection F → S) (fds : List ℕ) (s : S) (closed : List ℕ)
      → take_all (take_socket (some cb) peers) (s, closed) fds
        ≡ (take_all (λ s fd. cb s (accept_connection (peers fd) fd)) s fds, closed)
  unfolding take_socket
  take_all-handed cb [] s closed = refl
  take_all-handed cb (fd ∷ fds) s closed =
      take_all-handed cb fds (cb s (accept_connection (peers fd) fd)) closed

  -- The accepting thread, whatever calls of `accept` bring a socket or fail until the listening
  -- socket is given up: it ends then. With a callback, each new socket has become a connection that
  -- was handed to it, once and in order, and none is closed; without one, each is closed.
  pub listen_loop-take_socket :
      (cb : S → Connection F → S) (rs : List (Option ℕ)) (s : S) (closed : List ℕ) (r : Accepted)
      (rest : List (Bool × Accepted))
      → (listen_loop (take_socket (some cb) peers) (s, closed) (rounds_of rs ++ (false, r) ∷ rest)
          ≡ Listening.returned
              (take_all (λ s fd. cb s (accept_connection (peers fd) fd)) s (sockets_of rs), closed))
        × (listen_loop
              (take_socket {F = F} none peers)
              (s, closed)
              (rounds_of rs ++ (false, r) ∷ rest)
            ≡ Listening.returned (s, closed ++ sockets_of rs))
  listen_loop-take_socket cb rs s closed r rest = (
    listen_loop-take_all (take_socket (some cb) peers) rs (s, closed) r rest
        ∙ ap Listening.returned (take_all-handed cb (sockets_of rs) s closed),
    listen_loop-take_all (take_socket {F = F} none peers) rs (s, closed) r rest
        ∙ ap Listening.returned (take_all-closed (sockets_of rs) s closed),
  )
