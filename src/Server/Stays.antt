-- ===== src/Server/Stays.antt =====
-- A client that `new_client_connect` of src/server.cpp lists, over the rounds of `main`.
use flight_safety_system.Base.{
  ℕ, ◌≡◌, ap, ◌∙◌, true, List, [], ◌∷◌, ◌++◌, arith, ==_iff, contains, contains-append,
}
use flight_safety_system.Floats.{Floats}
use flight_safety_system.Connection.{Connection}
use flight_safety_system.Db.{Database}
use flight_safety_system.Server.Clients.{client_connected}
use flight_safety_system.Server.Process.{new_client_connect}
use flight_safety_system.Server.Registry.{drained-lists}
use flight_safety_system.Server.Main.{
  Event, Round, MainState, happen, happen_all, loop_round, main_loop,
}
use flight_safety_system.Server.Main.Sound.{Tracked, connects-Tracked, round-Tracked}
use flight_safety_system.Server.Silent.{AllSilent, happen_all-Keeps, round-clients}

module _ {F : Floats} where
  rounds-listed :
      (rs : List (Round F)) (s : MainState F) (q : ℕ)
      → Tracked s
      → contains q s.clients.clients ≡ true
      → AllSilent q rs
      → contains q (main_loop rs s).clients.clients ≡ true
  unfolding main_loop loop_round
  rounds-listed [] s q t held quiet = held
  rounds-listed (r ∷ rs) s q t held (quiet, later) =
      let s' = happen_all r.events s in
      let (l, _) = happen_all-Keeps r.events q s t held quiet in
      rounds-listed rs (loop_round r s) q (round-Tracked r s t)
        (ap (contains q) (round-clients r.db r.now s'.counter s'.clients) ∙ l ∙ held) later

  -- From a state that `main` gets to, whatever messages the connection of a new client has queued
  -- before it is handed over, also one that says that it is closed or an identity that is refused: the
  -- client is listed behind the others, and stays listed over any number of rounds of `main` in which
  -- it sends nothing more, whatever the others send and whoever connects.
  pub new_client_connect-rounds :
      (db : Database F) (ts : ℕ) (conn : Connection F) (s : MainState F) (rs : List (Round F))
      → Tracked s
      → AllSilent s.next_object rs
      → let s' = happen (Event.connects db ts conn) s in
        (s'.clients.clients ≡ s.clients.clients ++ s.next_object ∷ [])
        × (contains s.next_object (main_loop rs s').clients.clients ≡ true)
  unfolding happen new_client_connect client_connected
  new_client_connect-rounds db ts conn s rs t quiet =
      let n = s.next_object in
      let (c, _) = t.fresh in
      let still = drained-lists db ts s.clients n conn (c n (omega arith)) in
      let listed = ap (λ (l : List ℕ × List ℕ × ℕ). l.0 ++ n ∷ []) still in
      let a = contains-append n n s.clients.clients in
      let e = ==_iff n n in
      (
        listed,
        rounds-listed rs (happen (Event.connects db ts conn) s) n (connects-Tracked db ts conn s t)
            (ap (contains n) listed ∙ ground arith) quiet,
      )
