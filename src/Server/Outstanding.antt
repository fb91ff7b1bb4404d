-- ===== src/Server/Outstanding.antt =====
-- How the list of outstanding round-trip requests of a client in src/server.cpp grows.
use flight_safety_system.Base.{
  ℕ, ◌+◌, ◌%◌, ◌≡◌, ap, ◌∙◌, inl, inr, true, List, [], ◌∷◌, none, arith, length, length-append,
  contains, ◌==◌, Bool-cases,
}
use flight_safety_system.Floats.{Floats}
use flight_safety_system.Message.{Message}
use flight_safety_system.Connection.{send_msg, send_session_msg, get_message_id}
use flight_safety_system.Db.{Database}
use flight_safety_system.Server.{
  FssClient, client_send, send_rtt_request, send_command, send_smm_settings, get_servers_list_msg,
}
use flight_safety_system.Server.Clients.{ServerClients}
use flight_safety_system.Server.Process.{periodic}
use flight_safety_system.Server.Relay.{relayed}
use flight_safety_system.Server.Rounds.{asked, serviced, periodic-serviced}
use flight_safety_system.Server.Registry.{WellFormed, reachable-WellFormed}
use flight_safety_system.Server.Main.{Round, MainState, happen_all, loop_round, main_loop}
use flight_safety_system.Server.Main.Sound.{
  Tracked, happen_all-Tracked, round-Tracked, no_clients-WellFormed,
}
use flight_safety_system.Server.Waiting.{waiting_for}
use flight_safety_system.Server.Silent.{AllSilent, happen_all-Keeps, round-clients}

module _ {F : Floats} where
  send_command-outstanding :
      (db : Database F) (ts : ℕ) (c : FssClient F)
      → (send_command db ts c).outstanding_rtt_requests ≡ c.outstanding_rtt_requests
  unfolding send_command client_send send_msg send_session_msg get_message_id
  send_command-outstanding db ts c = ground arith

  send_smm_settings-outstanding :
      (db : Database F) (c : FssClient F)
      → (send_smm_settings db c).outstanding_rtt_requests ≡ c.outstanding_rtt_requests
  unfolding send_smm_settings client_send send_msg send_session_msg get_message_id
  send_smm_settings-outstanding db c = ground arith

  relayed-outstanding :
      (q : ℕ) (c : FssClient F) (m : Message F)
      → (relayed true none q c m).outstanding_rtt_requests ≡ c.outstanding_rtt_requests
  unfolding client_send send_msg send_session_msg get_message_id
  relayed-outstanding q c m = ground arith

  asked-outstanding : (ts : ℕ) (c : FssClient F) → waiting_for (asked ts c) ≡ waiting_for c + 1
  unfolding send_rtt_request client_send send_msg send_session_msg get_message_id
  asked-outstanding ts c = length-append {0} c.outstanding_rtt_requests _

  serviced-outstanding :
      (db : Database F) (now : ℕ → ℕ × ℕ) (counter q : ℕ) (c : FssClient F)
      → waiting_for (serviced db now counter q c) ≡ waiting_for c + 1
  serviced-outstanding db now counter q c = elim (Bool-cases (counter % 15 == 0)) [
    | inl full ↦ rw full (
        ap (λ l. length l)
          (send_smm_settings-outstanding db (
              relayed true none q (send_command db (now q).1 (asked (now q).0 c))
                (get_servers_list_msg db))
            ∙ relayed-outstanding q (send_command db (now q).1 (asked (now q).0 c))
                (get_servers_list_msg db)
            ∙ send_command-outstanding db (now q).1 (asked (now q).0 c))
        ∙ asked-outstanding (now q).0 c)
    | inr short ↦ rw short (
        ap (λ l. length l) (send_command-outstanding db (now q).1 (asked (now q).0 c))
        ∙ asked-outstanding (now q).0 c)
  ]

  round-waiting :
      (db : Database F) (now : ℕ → ℕ × ℕ) (counter : ℕ) (s : ServerClients F) (q : ℕ)
      → WellFormed s
      → contains q s.clients ≡ true
      → waiting_for ((periodic db now counter s).objects q) ≡ waiting_for (s.objects q) + 1
  round-waiting db now counter s q w held =
      let (object, _, _) = periodic-serviced db now counter s q w in
      ap waiting_for object ∙ rw held (serviced-outstanding db now counter q (s.objects q))

  -- From a state that `main` gets to, over any number of its rounds in which a listed client sends
  -- nothing, whatever the others send, whoever connects and whatever the clock and the database
  -- answer: its outstanding requests grow by one for each round, with no bound.
  pub rounds-outstanding :
      (rs : List (Round F)) (s : MainState F) (q : ℕ)
      → Tracked s
      → contains q s.clients.clients ≡ true
      → AllSilent q rs
      → waiting_for ((main_loop rs s).clients.objects q)
        ≡ waiting_for (s.clients.objects q) + length rs
  unfolding main_loop loop_round
  rounds-outstanding [] s q t held quiet = omega arith
  rounds-outstanding (r ∷ rs) s q t held (quiet, later) =
      let s' = happen_all r.events s in
      let t' = happen_all-Tracked r.events s t in
      let (l, w) = happen_all-Keeps r.events q s t held quiet in
      let w' = reachable-WellFormed no_clients-WellFormed t'.reach in
      let one = round-waiting r.db r.now s'.counter s'.clients q w' (l ∙ held) in
      let still = ap (contains q) (round-clients r.db r.now s'.counter s'.clients) ∙ l ∙ held in
      let ih = rounds-outstanding rs (loop_round r s) q (round-Tracked r s t) still later in
      omega (arith, ih, one, w)
