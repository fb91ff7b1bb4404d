-- ===== src/FakeClient/Reports.antt =====
-- What a server gets from examples/fake_client.cpp.
use flight_safety_system.Base.{
  ℕ, ◌+◌, ◌%◌, ◌≡◌, refl, ap, ◌∙◌, inl, inr, true, false, List, [], ◌∷◌, some, ◌==◌, if◌then◌else◌,
  arith, contains, contains-count, count-contains-false, Bool-cases, All,
}
use flight_safety_system.Floats.{Floats}
use flight_safety_system.Message.{Message}
use flight_safety_system.Connection.{Connection}
use flight_safety_system.Connection.Connect.{Network}
use flight_safety_system.Client.{FssServer}
use flight_safety_system.Client.Servers.{FssClient, attempt_reconnect, send_msg_all}
use flight_safety_system.Client.Broadcast.{said, given, send_msg_all-given}
use flight_safety_system.Client.Early.{contains-append_left}
use flight_safety_system.Client.Reconnect.{those, reached, attempt_reconnect-those}
use flight_safety_system.Client.Invariant.{WellFormed}
use flight_safety_system.Client.Registry.{send_msg_all-WellFormed, attempt_reconnect-WellFormed}
use flight_safety_system.FakeClient.{
  Constants, Round, status_message, search_message, position_message, send_reports, receive_all,
  loop_round, main_loop,
}

module _ {F : Floats} where
  -- A connection over some rounds, of which the first has the number behind `counter`: in each fifth,
  -- the status, the search and the position.
  abbrev pub reported : Constants F → List (Round F) → ℕ → Connection F → Connection F
  reported lits [] counter k = k
  reported lits (r ∷ rs) counter k = reported lits rs (counter + 1) (
      if (counter + 1) % 5 == 0
      then said (said (said k (status_message lits)) search_message)
          (position_message lits r.timestamp)
      else k)

  record IsUp (p : ℕ) (k : Connection F) (c : FssClient F) : Type 0 where
    well_formed : WellFormed c
    conn : (c.objects p).conn ≡ some k
    held : contains p c.servers ≡ true

  send_msg_all-IsUp :
      (p : ℕ) (k : Connection F) (c : FssClient F) (m : Message F)
      → k.usable ≡ true
      → IsUp p k c
      → IsUp p (said k m) (send_msg_all c m)
  unfolding send_msg_all
  send_msg_all-IsUp p k c m usable h =
      let w = h.well_formed in
      let conn = h.conn in
      let held = h.held in
      let e = send_msg_all-given c m p (let a = w.each p in ground arith) in
      let object : (send_msg_all c m).objects p ≡ given (c.objects p) m = e ∙ rw held refl in
      let after : (given (c.objects p) m).conn ≡ some (said k m) = rw (conn, usable) refl in
      record {
        well_formed = send_msg_all-WellFormed c m w;
        conn = ap (λ (s : FssServer F). s.conn) object ∙ after;
        held = held;
      }

  attempt_reconnect-IsUp :
      (p : ℕ) (k : Connection F) (c : FssClient F) (nets : ℕ → Network) (now : ℕ → ℕ)
      → IsUp p k c
      → IsUp p k (attempt_reconnect nets now c)
  attempt_reconnect-IsUp p k c nets now h =
      let w = h.well_formed in
      let (s, r, o, _) =
        attempt_reconnect-those nets now c (λ q. (let a = w.each q in ground arith)) in
      let away : contains p c.reconnect_servers ≡ false =
        count-contains-false p c.reconnect_servers
          (let a = w.each p in let b = contains-count p c.servers h.held in ground arith) in
      let same : (attempt_reconnect nets now c).objects p ≡ c.objects p = o p ∙ rw away refl in
      record {
        well_formed = attempt_reconnect-WellFormed nets now c w;
        conn = ap (λ (s : FssServer F). s.conn) same ∙ h.conn;
        held =
            ap (contains p) s
            ∙ contains-append_left p c.servers
                (those (reached nets now c.asset_name c.objects) c.reconnect_servers) h.held;
      }

  send_reports-IsUp :
      (lits : Constants F) (ts p : ℕ) (k : Connection F) (c : FssClient F)
      → k.usable ≡ true
      → IsUp p k c
      → IsUp p
          (said (said (said k (status_message lits)) search_message) (position_message lits ts))
          (send_reports lits ts c)
  unfolding send_reports
  send_reports-IsUp lits ts p k c usable h =
      let k1 = said k (status_message lits) in
      let c1 = send_msg_all c (status_message lits) in
      let k2 = said k1 search_message in
      let c2 = send_msg_all c1 search_message in
      send_msg_all-IsUp p k2 c2 (position_message lits ts) usable (
        send_msg_all-IsUp p k1 c1 search_message usable
          (send_msg_all-IsUp p k c (status_message lits) usable h))

  loop_round-IsUp :
      (lits : Constants F) (r : Round F) (p counter : ℕ) (k : Connection F) (c : FssClient F)
      → k.usable ≡ true
      → r.received ≡ []
      → IsUp p k c
      → IsUp p (reported lits (r ∷ []) counter k) (loop_round lits r (c, counter)).0
  unfolding loop_round receive_all
  loop_round-IsUp lits r p counter k c usable quiet h =
      let c' = attempt_reconnect r.nets r.now c in
      let up = attempt_reconnect-IsUp p k c r.nets r.now h in
      elim (Bool-cases ((counter + 1) % 5 == 0)) [
        | inl fifth ↦
            rw (quiet, receive_all, fifth) (send_reports-IsUp lits r.timestamp p k c' usable up)
        | inr other ↦ rw (quiet, receive_all, other) up
      ]

  round_usable :
      (lits : Constants F) (r : Round F) (counter : ℕ) (k : Connection F)
      → k.usable ≡ true
      → (reported lits (r ∷ []) counter k).usable ≡ true
  round_usable lits r counter k usable = ground arith

  main_loop-IsUp :
      (lits : Constants F) (rs : List (Round F)) (p counter : ℕ) (k : Connection F)
      (c : FssClient F)
      → k.usable ≡ true
      → All (λ (r : Round F). r.received ≡ []) rs
      → IsUp p k c
      → IsUp p (reported lits rs counter k) (main_loop lits rs (c, counter)).0
  unfolding main_loop loop_round
  main_loop-IsUp lits [] p counter k c usable quiet h = h
  main_loop-IsUp lits (r ∷ rs) p counter k c usable (q, qs) h =
      main_loop-IsUp lits rs p (counter + 1) (reported lits (r ∷ []) counter k)
        (loop_round lits r (c, counter)).0 (round_usable lits r counter k usable) qs
        (loop_round-IsUp lits r p counter k c usable q h)

  -- A connected server of a well-formed client, its connection usable, over any number of rounds in
  -- which no server sends anything: it is still connected, and it was sent, in each fifth round and in
  -- this order, the status, the search and the position of that time, each packed under the next id
  -- of its connection, and nothing else.
  pub main_loop-reported :
      (lits : Constants F) (rs : List (Round F)) (p counter : ℕ) (k : Connection F)
      (c : FssClient F)
      → WellFormed c
      → (c.objects p).conn ≡ some k
      → contains p c.servers ≡ true
      → k.usable ≡ true
      → All (λ (r : Round F). r.received ≡ []) rs
      → let c' = (main_loop lits rs (c, counter)).0 in
        ((c'.objects p).conn ≡ some (reported lits rs counter k)) × (contains p c'.servers ≡ true)
  main_loop-reported lits rs p counter k c w conn held usable quiet =
      let h =
        main_loop-IsUp lits rs p counter k c usable quiet
          (record { well_formed = w; conn = conn; held = held }) in
      (h.conn, h.held)
