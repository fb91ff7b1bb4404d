-- ===== src/Server/Rounds.antt =====
-- The periodic round of `main` in src/server.cpp: what each client is sent.
use flight_safety_system.Base.{
  ℕ, ◌%◌, ◌≤◌, ◌≡◌, refl, ◌∙◌, inl, inr, true, false, List, [], ◌∷◌, none, arith, ◌==◌,
  if◌then◌else◌, contains, count, update, ==_iff, Bool-cases, contains-count, subst,
}
use flight_safety_system.Floats.{Floats}
use flight_safety_system.Message.{Message, Body, make, set_id}
use flight_safety_system.Connection.{send_msg}
use flight_safety_system.Server.{
  FssClient, client_send, send_rtt_request, send_command, send_smm_settings, get_servers_list_msg,
}
use flight_safety_system.Server.Clients.{
  ServerClients, rtt_each, for_each, send_rtt_request_all, send_command_all, send_msg_all,
  send_smm_settings_all, cleanup_removable_clients, send_each,
}
use flight_safety_system.Server.Process.{periodic}
use flight_safety_system.Server.Relay.{relayed, send_each-relayed}
use flight_safety_system.Db.{Database}
use flight_safety_system.Server.Registry.{WellFormed}

module _ {F : Floats} where
  -- A client after it was asked at a time.
  abbrev pub asked : ℕ → FssClient F → FssClient F
  asked ts c = (send_rtt_request ts c (make Body.rtt_request)).0

  send_rtt_request_renamed :
      (ts then_ts : ℕ) (c d : FssClient F) (m : Message F)
      → (send_rtt_request ts c (send_rtt_request then_ts d m).1).0 ≡ (send_rtt_request ts c m).0
  unfolding send_rtt_request client_send send_msg set_id
  send_rtt_request_renamed ts then_ts c d m = refl

  rtt_each_other :
      (now : ℕ → ℕ) (ps : List ℕ) (objects : ℕ → FssClient F) (m : Message F) (q : ℕ)
      → contains q ps ≡ false
      → rtt_each now ps objects m q ≡ objects q
  unfolding rtt_each
  rtt_each_other now [] objects m q h = refl
  rtt_each_other now (p ∷ ps) objects m q h =
      let (c, m') = send_rtt_request (now p) (objects p) m in
      let ih = rtt_each_other now ps (update objects p c) m' q (ground arith) in
      let e = ==_iff p q in let e' = ==_iff q p in ih ∙ ground arith

  rtt_each-asked :
      (now : ℕ → ℕ) (ps : List ℕ) (objects : ℕ → FssClient F) (m : Message F) (q : ℕ)
      → count q ps ≤ 1
      → rtt_each now ps objects m q
        ≡ (if contains q ps then (send_rtt_request (now q) (objects q) m).0 else objects q)
  unfolding rtt_each
  rtt_each-asked now [] objects m q h = refl
  rtt_each-asked now (p ∷ ps) objects m q h =
      let r = send_rtt_request (now p) (objects p) m in
      let after = update objects p r.0 in
      elim (Bool-cases (p == q)) [
        | inl same ↦
            let held = contains-count q ps in
            rtt_each_other now ps after r.1 q (ground arith)
            ∙ subst
                (λ x. after x ≡ (
                  if contains x (p ∷ ps)
                  then (send_rtt_request (now x) (objects x) m).0
                  else objects x))
                ((==_iff p q).0 same) (let e = ==_iff p p in ground arith)
        | inr other ↦
            let kept : after q ≡ objects q = ground arith in
            rtt_each-asked now ps after r.1 q (ground arith)
            ∙ rw (kept, send_rtt_request_renamed (now q) (now p) (objects q) (objects p) m)
                (ground arith)
      ]

  for_each_other :
      (method : ℕ → FssClient F → FssClient F) (ps : List ℕ) (objects : ℕ → FssClient F) (q : ℕ)
      → contains q ps ≡ false
      → for_each method ps objects q ≡ objects q
  unfolding for_each
  for_each_other method [] objects q h = refl
  for_each_other method (p ∷ ps) objects q h =
      let ih =
        for_each_other method ps (update objects p (method p (objects p))) q (ground arith) in
      ih ∙ ground arith

  for_each_once :
      (method : ℕ → FssClient F → FssClient F) (ps : List ℕ) (objects : ℕ → FssClient F) (q : ℕ)
      → count q ps ≤ 1
      → for_each method ps objects q ≡ (if contains q ps then method q (objects q) else objects q)
  unfolding for_each
  for_each_once method [] objects q h = refl
  for_each_once method (p ∷ ps) objects q h =
      let after = update objects p (method p (objects p)) in
      elim (Bool-cases (p == q)) [
        | inl same ↦
            let held = contains-count q ps in
            for_each_other method ps after q (ground arith)
            ∙ subst
                (λ x. after x ≡ (if contains x (p ∷ ps) then method x (objects x) else objects x))
                ((==_iff p q).0 same) (let e = ==_iff p p in ground arith)
        | inr other ↦ for_each_once method ps after q (ground arith) ∙ ground arith
      ]

  -- What a round does to the client at `q`, if it is listed.
  abbrev pub serviced : Database F → (ℕ → ℕ × ℕ) → ℕ → ℕ → FssClient F → FssClient F
  serviced db now counter q c =
      let c = send_command db (now q).1 (asked (now q).0 c) in
      if counter % 15 == 0
      then send_smm_settings db (relayed true none q c (get_servers_list_msg db))
      else c

  pub periodic-serviced :
      (db : Database F) (now : ℕ → ℕ × ℕ) (counter : ℕ) (s : ServerClients F) (q : ℕ)
      → WellFormed s
      → ((periodic db now counter s).objects q
          ≡ (if contains q s.clients then serviced db now counter q (s.objects q) else s.objects q))
        × ((periodic db now counter s).clients ≡ s.clients)
        × ((periodic db now counter s).writes ≡ s.writes)
  unfolding periodic cleanup_removable_clients send_rtt_request_all send_command_all send_msg_all
      send_smm_settings_all
  periodic-serviced db now counter s q w =
      let once : count q s.clients ≤ 1 = let o = w.once q in omega arith in
      let requests = rtt_each (λ p. (now p).0) s.clients s.objects (make Body.rtt_request) in
      let commands = for_each (λ p c. send_command db (now p).1 c) s.clients requests in
      let lists = send_each s.clients none commands (get_servers_list_msg db) in
      let a = rtt_each-asked (λ p. (now p).0) s.clients s.objects (make Body.rtt_request) q once in
      let b = for_each_once (λ p c. send_command db (now p).1 c) s.clients requests q once in
      let c = send_each-relayed s.clients none commands (get_servers_list_msg db) q once in
      let d = for_each_once (λ p c. send_smm_settings db c) s.clients lists q once in
      (
        elim (Bool-cases (contains q s.clients)) [
          | inl held ↦ elim (Bool-cases (counter % 15 == 0)) [
            | inl full ↦ rw (full, d, c, b, a, held) refl
            | inr short ↦ rw (short, b, a, held) refl
          ]
          | inr other ↦ elim (Bool-cases (counter % 15 == 0)) [
            | inl full ↦ rw (full, d, c, b, a, other) refl
            | inr short ↦ rw (short, b, a, other) refl
          ]
        ],
        ground arith,
        ground arith,
      )
