-- ===== src/Connection/Plain.antt =====
-- The plain connections of src/transport.cpp, and which `newConnection` a listening socket calls.
use flight_safety_system.Base.{ℕ, Bool, true, false, some}
use flight_safety_system.Floats.{Floats}
use flight_safety_system.Connection.{Connection, new_connection}
use flight_safety_system.Connection.Accept.{Peer, accept_connection}

-- The constructor of `transport::fss_connection` for a socket, which `fss_listen::newConnection` of
-- src/transport.cpp calls. It starts the receiving thread; there is no session, so no peer is asked
-- for a certificate, and `getClientNames` of the base class gives no name. Its `sendMsg` hands every
-- message to the socket, as the session of a usable TLS connection takes it: `usable` is set for it.
unfoldable pub plain_connection : {F : Floats} → ℕ → Connection F
unfolding new_connection
plain_connection t_fd = record new_connection { fd = some t_fd; usable = true; receiving = true }

-- `newConnection` is virtual, and the constructor of the base class starts the thread that calls it:
-- until that of `transport_ssl::fss_listen` takes over, the call goes to the base class.
unfoldable pub virtual_new_connection : {F : Floats} → Bool → Peer → ℕ → Connection F
unfolding plain_connection
virtual_new_connection is_constructed peer t_fd = elim is_constructed [
  | true ↦ accept_connection peer t_fd
  | false ↦ plain_connection t_fd
]
