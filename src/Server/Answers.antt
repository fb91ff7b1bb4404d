-- ===== src/Server/Answers.antt =====
-- The round-trip requests that src/server.cpp sends, and their answers.
use flight_safety_system.Base.{
  ℕ, ◌+◌, ◌-◌, ◌%◌, ◌^◌, ◌<◌, ◌≤◌, Bool, true, not, ◌&&◌, List, [], ◌∷◌, ◌++◌, none, some, ◌==◌,
  append_assoc, ◌≡◌, refl, ap, ◌∙◌, ==_iff, arith, update, update-same,
}
use flight_safety_system.Floats.{Floats}
use flight_safety_system.Message.{FssMessageType, Message, Body}
use flight_safety_system.Db.{Database, asset_add_rtt}
use flight_safety_system.Server.{FssClientRtt, FssClient, client_send, send_rtt_request}
use flight_safety_system.Server.Clients.{ServerClients}
use flight_safety_system.Server.Process.{
  take_rtt, process_rtt_response, process_identified, process_message,
}

-- No entry of the list is for the request.
abbrev pub none_for : ℕ → List FssClientRtt → Bool
none_for request_id [] = true
none_for request_id (r ∷ rs) = not (r.reqid == request_id) && none_for request_id rs

take_rtt-none :
    (request_id : ℕ) (rs : List FssClientRtt)
    → none_for request_id rs ≡ true
    → take_rtt request_id rs ≡ none
unfolding take_rtt
take_rtt-none request_id [] h = refl
take_rtt-none request_id (r ∷ rs) h = let ih = take_rtt-none request_id rs in ground arith

-- The entry that is found is the last of its id, and the others stay in their order.
take_rtt-append :
    (before : List FssClientRtt) (r : FssClientRtt) (after : List FssClientRtt)
    → none_for r.reqid after ≡ true
    → take_rtt r.reqid (before ++ r ∷ after) ≡ some (r, before ++ after)
unfolding take_rtt
take_rtt-append [] r after h = let gone = take_rtt-none r.reqid after h in ground arith
take_rtt-append (b ∷ before) r after h = let ih = take_rtt-append before r after h in ground arith

module _ {F : Floats} where
  abbrev pub make_response : ℕ → ℕ → Message F
  make_response id request_id = record {
    id = id;
    type = FssMessageType.rtt_response;
    body = Body.rtt_response request_id;
  }

  -- The state with the client at `p` after it was sent the request `rtt_req` at the time `sent_at`,
  -- and after further requests `later` to it.
  abbrev pub requested : ServerClients F → ℕ → ℕ → Message F → List FssClientRtt → ServerClients F
  requested s p sent_at rtt_req later =
      let c = (send_rtt_request sent_at (s.objects p) rtt_req).0 in
      record s {
        objects =
            update s.objects p
              (record c { outstanding_rtt_requests = c.outstanding_rtt_requests ++ later });
      }

  rtt_found :
      (db : Database F) (ts : ℕ) (s : ServerClients F) (p request_id : ℕ) (r : FssClientRtt)
      (left : List FssClientRtt)
      → take_rtt request_id (s.objects p).outstanding_rtt_requests ≡ some (r, left)
      → (((process_rtt_response db ts s p request_id).objects p).outstanding_rtt_requests ≡ left)
        × ((process_rtt_response db ts s p request_id).writes
            ≡ s.writes
              ++ asset_add_rtt db (s.objects p).name ((ts + 2 ^ 64 - r.timestamp) % 2 ^ 64))
  unfolding process_rtt_response
  rtt_found db ts s p request_id r left found = let e = ==_iff p p in ground arith

  rtt_dispatch :
      (db : Database F) (ts : ℕ) (s : ServerClients F) (p id request_id : ℕ)
      → (s.objects p).identified ≡ true
      → process_message db ts s p (some (make_response id request_id))
        ≡ process_rtt_response db ts s p request_id
  unfolding process_message process_identified
  rtt_dispatch db ts s p id request_id known = ground arith

  requested-kept :
      (s : ServerClients F) (p sent_at : ℕ) (rtt_req : Message F) (later : List FssClientRtt)
      → (((requested s p sent_at rtt_req later).objects p).identified ≡ (s.objects p).identified)
        × (((requested s p sent_at rtt_req later).objects p).name ≡ (s.objects p).name)
        × (((requested s p sent_at rtt_req later).objects p).outstanding_rtt_requests
            ≡ (s.objects p).outstanding_rtt_requests
              ++ record {
                timestamp = sent_at;
                reqid = (send_rtt_request sent_at (s.objects p) rtt_req).1.id;
              }
                ∷ later)
  unfolding send_rtt_request client_send
  requested-kept s p sent_at rtt_req later =
      let c = (send_rtt_request sent_at (s.objects p) rtt_req).0 in
      let d : FssClient F = record c {
        outstanding_rtt_requests = c.outstanding_rtt_requests ++ later;
      } in
      let same = update-same s.objects p d in
      (
        ap (λ (x : FssClient F). x.identified) same,
        ap (λ (x : FssClient F). x.name) same,
        ap (λ (x : FssClient F). x.outstanding_rtt_requests) same
            ∙ append_assoc (s.objects p).outstanding_rtt_requests
                (record {
                  timestamp = sent_at;
                  reqid = (send_rtt_request sent_at (s.objects p) rtt_req).1.id;
                }
                  ∷ [])
                later,
      )

  -- A response to a round-trip request, which an identified client sends while no later request has
  -- the same id: the request is no longer outstanding, all others are, and the time that passed is
  -- stored for the asset, if the database knows it.
  pub rtt_response-send_rtt_request :
      (db : Database F) (sent_at ts : ℕ) (s : ServerClients F) (p id : ℕ) (rtt_req : Message F)
      (later : List FssClientRtt)
      → (s.objects p).identified ≡ true
      → none_for (send_rtt_request sent_at (s.objects p) rtt_req).1.id later ≡ true
      → sent_at ≤ ts
      → ts < 2 ^ 64
      → let after =
          process_message db ts
            (requested s p sent_at rtt_req later)
            p
            (some (make_response id (send_rtt_request sent_at (s.objects p) rtt_req).1.id)) in
        ((after.objects p).outstanding_rtt_requests
          ≡ (s.objects p).outstanding_rtt_requests ++ later)
        × (after.writes ≡ s.writes ++ asset_add_rtt db (s.objects p).name (ts - sent_at))
  rtt_response-send_rtt_request db sent_at ts s p id rtt_req later known none_later order small =
      let request_id = (send_rtt_request sent_at (s.objects p) rtt_req).1.id in
      let s' = requested s p sent_at rtt_req later in
      let (its_state, its_name, its_requests) = requested-kept s p sent_at rtt_req later in
      let r : FssClientRtt = record { timestamp = sent_at; reqid = request_id } in
      let found =
        ap (take_rtt request_id) its_requests
        ∙ take_rtt-append (s.objects p).outstanding_rtt_requests r later none_later in
      let (left, written) =
        rtt_found db ts s' p request_id r ((s.objects p).outstanding_rtt_requests ++ later) found in
      let same = rtt_dispatch db ts s' p id request_id (its_state ∙ known) in
      (
        ap (λ (x : ServerClients F). (x.objects p).outstanding_rtt_requests) same ∙ left,
        ap (λ (x : ServerClients F). x.writes) same
            ∙ written
            ∙ ap (λ n. s.writes ++ asset_add_rtt db n ((ts + 2 ^ 64 - sent_at) % 2 ^ 64)) its_name
            ∙ ap (λ t. s.writes ++ asset_add_rtt db (s.objects p).name t) (omega arith),
      )
