-- ===== src/Exchange.antt =====
-- A message from one side to the other and what it does there: src/server.cpp and src/client-ssl.cpp
-- over src/transport-messages.cpp.
pub mod Rtt
pub mod Command
pub mod Identity
pub mod Position
pub mod Status
pub mod Settings
use flight_safety_system.Base.{ℕ, ◌^◌, ◌<◌, Option, arith, take}
use flight_safety_system.Floats.{Floats}
use flight_safety_system.Message.{Message}
use flight_safety_system.Message.Pack.{get_packed}
use flight_safety_system.Message.Wire.{wire_size}
use flight_safety_system.Message.Decode.{decode}
use flight_safety_system.Connection.{Connection, get_message_id}

module _ {F : Floats} where
  -- What the other side decodes from a message that was packed and cut to its length.
  abbrev pub carried : Message F → Option (Option (Message F))
  carried m = decode F (take (wire_size m.body) (get_packed m))

  pub get_message_id-lt : (k : Connection F) → (get_message_id k).0 < 2 ^ 64
  unfolding get_message_id
  get_message_id-lt k = omega arith
