-- ===== src/FakeClient.antt =====
-- examples/fake_client.cpp: an application of the client that reports made-up values.
pub mod Reports
use flight_safety_system.Base.{ℕ, ◌+◌, ◌%◌, List, [], ◌∷◌, Option, none, some, ◌==◌, if◌then◌else◌}
use flight_safety_system.Floats.{Floats}
use flight_safety_system.Message.{Message}
use flight_safety_system.Message.Constructors.{
  new_system_status, new_search_status, new_position_report,
}
use flight_safety_system.Connection.Connect.{Network}
use flight_safety_system.Client.Disconnect.{Disconnected, client_disconnect}
use flight_safety_system.Client.Servers.{
  FssClient, Config, client_of_config, attempt_reconnect, send_msg_all,
}
use flight_safety_system.Client.Process.{process_message}

-- The constants of type `double`: 11.4, -43.5 and 172.5.
pub record Constants (F : Floats) : Type 0 where
  pub bat_voltage : F.Double
  pub lat : F.Double
  pub lng : F.Double

-- A sleep of the loop with the messages that the servers send meanwhile, the networks and times of
-- the attempts to connect behind it, and the time of the position.
pub record Round (F : Floats) : Type 0 where
  pub received : List (ℕ × Option (Message F))
  pub nets : ℕ → Network
  pub now : ℕ → ℕ
  pub timestamp : ℕ

-- "example".
abbrev pub callsign : List ℕ
callsign = b'e' ∷ b'x' ∷ b'a' ∷ b'm' ∷ b'p' ∷ b'l' ∷ b'e' ∷ []

module _ {F : Floats} where
  unfoldable pub status_message : Constants F → Message F
  unfolding new_system_status
  status_message k = new_system_status 75 1000 k.bat_voltage

  unfoldable pub search_message : Message F
  unfolding new_search_status
  search_message = new_search_status 1 23 100

  -- The squawk code is written in octal, 01200.
  unfoldable pub position_message : Constants F → ℕ → Message F
  unfolding new_position_report
  position_message k timestamp =
      new_position_report k.lat k.lng 300 1800 200 0 0 callsign 640 0 63 1 14 timestamp

  unfoldable pub send_reports : Constants F → ℕ → FssClient F → FssClient F
  unfolding status_message search_message position_message
  send_reports k timestamp client =
      let client = send_msg_all client (status_message k) in
      let client = send_msg_all client search_message in
      send_msg_all client (position_message k timestamp)

  unfoldable pub receive_all : List (ℕ × Option (Message F)) → FssClient F → FssClient F
  receive_all [] client = client
  receive_all ((p, m) ∷ ms) client = receive_all ms (process_message client p m)

  -- One round of the loop, with the counter.
  unfoldable pub loop_round : Constants F → Round F → FssClient F × ℕ → FssClient F × ℕ
  unfolding receive_all send_reports
  loop_round k r (client, counter) =
      let client = attempt_reconnect r.nets r.now (receive_all r.received client) in
      let counter = counter + 1 in
      (if counter % 5 == 0 then send_reports k r.timestamp client else client, counter)

  unfoldable pub main_loop : Constants F → List (Round F) → FssClient F × ℕ → FssClient F × ℕ
  unfolding loop_round
  main_loop k [] s = s
  main_loop k (r ∷ rs) s = main_loop k rs (loop_round k r s)

  -- `argument` is `none` where there is none, and holds what the file of that name holds; the result
  -- is `none` for the return of -1. `last` is what the receiving threads hand over at the end.
  unfoldable pub main :
      Constants F
      → Option (Option Config)
      → List (Round F)
      → (ℕ → List (Option (Message F)))
      → Option (Disconnected F)
  unfolding main_loop
  main k argument rs last = elim argument [
    | none ↦ none
    | some file ↦ some (client_disconnect last (main_loop k rs (client_of_config file, 0)).0)
  ]
