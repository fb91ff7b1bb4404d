-- ===== src/Exchange/Identity.antt =====
-- The identity that a client of src/client-ssl.cpp sends when it connects, and what src/server.cpp
-- makes of it.
use flight_safety_system.Base.{ℕ, true, List}
use flight_safety_system.Floats.{Floats}
use flight_safety_system.Message.{Body, Message, make, set_id}
use flight_safety_system.Connection.{Connection, new_connection, send_msg}
use flight_safety_system.Connection.Connect.{Network, connect_to}
use flight_safety_system.Client.{FssServer}

module _ {F : Floats} where
  -- The first message of a connection.
  abbrev pub identity_of : List ℕ → Message F
  identity_of name = set_id (make (Body.identity name)) 1

  -- The connection of a client behind its attempt.
  abbrev greeted : Network → List ℕ → FssServer F → Connection F
  greeted net name s =
      (send_msg (record (connect_to net new_connection s.address s.port).0 { handler = true })
        (make (Body.identity name))).0
