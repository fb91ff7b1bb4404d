-- ===== src/Exchange/Rtt.antt =====
-- A round-trip request of src/server.cpp, the answer of src/client-ssl.cpp, and its return.
use flight_safety_system.Base.{
  ℕ, ap, ◌∙◌, ◌-◌, ◌^◌, ◌<◌, ◌≤◌, ◌≡◌, refl, true, List, [], ◌∷◌, ◌++◌, some, arith, length-be,
  ==_iff,
}
use flight_safety_system.Floats.{Floats}
use flight_safety_system.Message.{Body, Message, make, set_id, body_type}
use flight_safety_system.Message.Pack.{get_packed}
use flight_safety_system.Message.Valid.{get_packed-is_valid}
use flight_safety_system.Message.RoundTrip.{Sendable, decode-get_packed}
use flight_safety_system.Connection.{Connection, get_message_id, send_msg, send_session_msg}
use flight_safety_system.Db.{Database, DbWrite, asset_add_rtt}
use flight_safety_system.Server.Stored.{entries_for, asset_add_rtt-entries_for}
use flight_safety_system.Server.{
  FssClient as ServerFssClient, FssClientRtt, client_send, send_rtt_request,
}
use flight_safety_system.Server.Clients.{ServerClients}
use flight_safety_system.Server.Process as ServerProcess
use flight_safety_system.Server.Answers.{none_for, requested, rtt_response-send_rtt_request}
use flight_safety_system.Client.{cb_send}
use flight_safety_system.Client.Servers.{FssClient}
use flight_safety_system.Client.Process as ClientProcess
use flight_safety_system.Exchange.{carried}

module _ {F : Floats} where
  -- The request and the reply to it, each under the next id of its connection.
  abbrev pub request_on : Connection F → Message F
  request_on k = set_id (make Body.rtt_request) (get_message_id k).0

  abbrev pub reply_on : Connection F → Message F → Message F
  reply_on k req = set_id (make (Body.rtt_response req.id)) (get_message_id k).0

  request_on-Sendable : (k : Connection F) → Sendable (request_on k)
  unfolding make set_id body_type get_message_id
  request_on-Sendable k = record {
    id = omega arith;
    type = refl;
    in_range = tt;
    size = omega arith;
  }

  reply_on-Sendable :
      (k : Connection F) (req : Message F) → req.id < 2 ^ 64 → Sendable (reply_on k req)
  unfolding make set_id body_type get_message_id
  reply_on-Sendable k req h = record {
    id = omega arith;
    type = refl;
    in_range = h;
    size = omega (arith, length-be 8 req.id);
  }

  request_carried : (k : Connection F) → carried (request_on k) ≡ some (some (request_on k))
  unfolding make set_id body_type
  request_carried k = decode-get_packed (request_on k) (request_on-Sendable k)

  reply_carried :
      (k : Connection F) (req : Message F)
      → req.id < 2 ^ 64
      → carried (reply_on k req) ≡ some (some (reply_on k req))
  unfolding make set_id body_type
  reply_carried k req h = decode-get_packed (reply_on k req) (reply_on-Sendable k req h)

  -- A client with a usable connection answers a request on it, once, and nothing else of that
  -- connection changes but its count of ids.
  client_replies :
      (c : FssClient F) (q : ℕ) (k j : Connection F)
      → (c.objects q).conn ≡ some k
      → k.usable ≡ true
      → ((ClientProcess.process_message c q (some (request_on j))).objects q).conn
        ≡ some (record (get_message_id k).1 {
          sent = k.sent ++ get_packed (reply_on k (request_on j)) ∷ [];
        })
  unfolding ClientProcess.process_message make set_id cb_send send_msg send_session_msg body_type
      get_message_id
  client_replies c q k j e up =
      let v = get_packed-is_valid (reply_on k (request_on j)) in
      let here = ==_iff q q in ground arith

  request_sent :
      (sent_at : ℕ) (c : ServerFssClient F)
      → c.conn.usable ≡ true
      → ((send_rtt_request sent_at c (make Body.rtt_request)).1 ≡ request_on c.conn)
        × ((send_rtt_request sent_at c (make Body.rtt_request)).0.conn.sent
            ≡ c.conn.sent ++ get_packed (request_on c.conn) ∷ [])
  unfolding send_rtt_request client_send send_msg send_session_msg make set_id body_type
      get_message_id
  request_sent sent_at c up =
      let v = get_packed-is_valid (request_on c.conn) in (refl, ground arith)

  reply_received :
      (db : Database F) (sent_at ts : ℕ) (s : ServerClients F) (p : ℕ) (later : List FssClientRtt)
      (k : Connection F)
      → (s.objects p).identified ≡ true
      → none_for (request_on (s.objects p).conn).id later ≡ true
      → sent_at ≤ ts
      → ts < 2 ^ 64
      → let after =
          ServerProcess.process_message db ts
            (requested s p sent_at (make Body.rtt_request) later)
            p
            (some (reply_on k (request_on (s.objects p).conn))) in
        ((after.objects p).outstanding_rtt_requests
          ≡ (s.objects p).outstanding_rtt_requests ++ later)
        × (after.writes ≡ s.writes ++ asset_add_rtt db (s.objects p).name (ts - sent_at))
  unfolding send_rtt_request client_send send_msg make set_id body_type
  reply_received db sent_at ts s p later k =
      rtt_response-send_rtt_request db sent_at ts s p (get_message_id k).0 (make Body.rtt_request)
        later

  -- A round-trip request of the server to an identified client at `p`, whose client has the
  -- connection `k` at `q`, both usable: the server sends it once; the client decodes it as it was
  -- sent and answers it once; the server decodes the answer as it was sent; and if no later request
  -- has the id of this one, it is no longer outstanding, all others are, and the time between the
  -- two ends is stored for the asset, if the database knows it.
  pub rtt_exchange :
      (db : Database F) (sent_at ts : ℕ) (s : ServerClients F) (p : ℕ) (later : List FssClientRtt)
      (c : FssClient F) (q : ℕ) (k : Connection F)
      → (s.objects p).identified ≡ true
      → (s.objects p).conn.usable ≡ true
      → (c.objects q).conn ≡ some k
      → k.usable ≡ true
      → none_for (request_on (s.objects p).conn).id later ≡ true
      → sent_at ≤ ts
      → ts < 2 ^ 64
      → let server = s.objects p in
        let req = request_on server.conn in
        let reply = reply_on k req in
        let after =
          ServerProcess.process_message db ts
            (requested s p sent_at (make Body.rtt_request) later)
            p
            (some reply) in
        ((send_rtt_request sent_at server (make Body.rtt_request)).0.conn.sent
          ≡ server.conn.sent ++ get_packed req ∷ [])
        × (carried req ≡ some (some req))
        × (((ClientProcess.process_message c q (some req)).objects q).conn
            ≡ some (record (get_message_id k).1 { sent = k.sent ++ get_packed reply ∷ [] }))
        × (carried reply ≡ some (some reply))
        × ((after.objects p).outstanding_rtt_requests ≡ server.outstanding_rtt_requests ++ later)
        × (after.writes
            ≡ s.writes
              ++ entries_for
                  (db.db_get_asset_id server.name)
                  (λ id. DbWrite.rtt_entry id (ts - sent_at)))
  rtt_exchange db sent_at ts s p later c q k known up e up' none_later order small =
      let server = s.objects p in
      let (_, sent) = request_sent sent_at server up in
      let (left, written) = reply_received db sent_at ts s p later k known none_later order small in
      (
        sent,
        request_carried server.conn,
        client_replies c q k server.conn e up',
        reply_carried k (request_on server.conn) (request_on-Sendable server.conn).id,
        left,
        written ∙ ap (λ e. s.writes ++ e) (asset_add_rtt-entries_for db server.name (ts - sent_at)),
      )
