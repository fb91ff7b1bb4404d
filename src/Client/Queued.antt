-- ===== src/Client/Queued.antt =====
-- `fss_server::reconnect` of src/client-ssl.cpp where the receiving thread of the new connection has
-- queued messages before `setHandler`, which then handles them.
use flight_safety_system.Base.{
  ℕ, ◌+◌, ◌%◌, ◌^◌, ◌-◌, ◌≡◌, refl, Bool, true, false, List, [], ◌∷◌, ◌++◌, append_assoc, Option,
  none, some, ltb, if◌then◌else◌, update-same, ap, ◌∙◌, arith, ◌==◌, ==_iff,
}
use flight_safety_system.Floats.{Floats}
use flight_safety_system.Message.{Message, set_id, make, body_type}
use flight_safety_system.Connection.Connect.{Network, connect_to, open_socket, start_session}
use flight_safety_system.Client.{
  FssServer, cb_send, retry_delay_start, retry_delay_cap, reconnect_to, take_handler, send_identify,
  attempt, reconnect,
}
use flight_safety_system.Connection.{Connection, new_connection}
use flight_safety_system.Buffer.{BufLen}
use flight_safety_system.Message.Pack.{get_packed}
use flight_safety_system.Message.Constructors.{new_rtt_request, new_rtt_response, new_identity}
use flight_safety_system.Client.Backoff.{Due, Reachable, next_delay}
use flight_safety_system.Client.Broadcast.{said, cb_send-given}
use flight_safety_system.Client.Servers.{FssClient}
use flight_safety_system.Client.Process.{put_server, process_message}

connected_fresh :
    (F : Floats) (net : Network) (address : List ℕ) (port : ℕ)
    → ((connect_to {F = F} net new_connection address port).0.sent ≡ [])
      × ((connect_to {F = F} net new_connection address port).0.last_msg_id ≡ 0)
      × ((connect_to {F = F} net new_connection address port).0.usable
          ≡ (connect_to {F = F} net new_connection address port).1)
unfolding connect_to new_connection open_socket start_session
connected_fresh F net address port = (ground arith, ground arith, ground arith)

module _ {F : Floats} where
  -- The loop of `setHandler`, whose handler is the server at `p`.
  unfoldable pub handle_queued : FssClient F → ℕ → List (Option (Message F)) → FssClient F
  handle_queued c p [] = c
  handle_queued c p (m ∷ messages) = handle_queued (process_message c p m) p messages

  -- `attempt` of the module above, with the messages handled where `setHandler` is called.
  unfoldable pub attempt_queued :
      Network → ℕ → FssClient F → ℕ → FssServer F → List (Option (Message F)) → FssClient F × Bool
  attempt_queued net ts c p s queued =
      let tried : FssServer F = record s {
        retry_count = (s.retry_count + 1) % 2 ^ 64;
        retry_delay =
            if ltb s.retry_delay retry_delay_cap
            then (s.retry_delay + s.retry_delay) % 2 ^ 64
            else s.retry_delay;
        last_tried = ts;
      } in
      let (s, ok) = reconnect_to net tried in
      if ok
      then (
        let c = handle_queued (put_server c p (take_handler s)) p queued in
            put_server c p (record (send_identify c.asset_name (c.objects p)) {
              retry_count = 0;
              last_tried = 0;
              retry_delay = retry_delay_start;
            }),
        true,
      )
      else (put_server c p (record s { conn = none }), false)

  -- `reconnect` of the server at `p`, whose new connection has those messages queued.
  unfoldable pub reconnect_queued :
      Network → ℕ → FssClient F → ℕ → List (Option (Message F)) → FssClient F × Bool
  reconnect_queued net ts c p queued =
      let elapsed_time = (ts + 2 ^ 64 - (c.objects p).last_tried) % 2 ^ 64 in
      let s : FssServer F = record (c.objects p) { conn = none } in
      if ltb s.retry_delay elapsed_time
      then attempt_queued net ts c p s queued
      else (put_server c p s, false)

  -- With nothing queued, that is `reconnect` of the server at `p`, and no other object changes.
  pub reconnect_queued-reconnect :
      (net : Network) (ts : ℕ) (c : FssClient F) (p : ℕ)
      → let s = reconnect net ts c.asset_name (c.objects p) in
        ((reconnect_queued net ts c p []).1 ≡ s.1)
        × ((reconnect_queued net ts c p []).0.objects p ≡ s.0)
        × ((q : ℕ) → (q == p) ≡ false → (reconnect_queued net ts c p []).0.objects q ≡ c.objects q)
  unfolding reconnect_queued attempt_queued handle_queued reconnect attempt
  reconnect_queued-reconnect net ts c p =
      let e = ==_iff p p in (ground arith, ground arith, λ q other. ground arith)

  -- Messages that a usable connection sends, one after the other.
  abbrev pub says : Connection F → List (Message F) → Connection F
  says k [] = k
  says k (m ∷ ms) = says (said k m) ms

  -- Requests of a server, and the answers to them.
  abbrev pub requests : List ℕ → List (Option (Message F))
  requests [] = []
  requests (i ∷ is) = some (set_id new_rtt_request i) ∷ requests is

  abbrev pub responses : List ℕ → List (Message F)
  responses [] = []
  responses (i ∷ is) = new_rtt_response i ∷ responses is

  cb_send-said :
      (s : FssServer F) (k : Connection F) (m : Message F)
      → s.conn ≡ some k
      → k.usable ≡ true
      → (cb_send s m).0.conn ≡ some (said k m)
  cb_send-said s k m conn usable =
      ap (λ (x : FssServer F). x.conn) (cb_send-given s m) ∙ rw (conn, usable) refl

  process_request :
      (c : FssClient F) (p i : ℕ) (k : Connection F)
      → (c.objects p).conn ≡ some k
      → k.usable ≡ true
      → (((process_message c p (some (set_id new_rtt_request i))).objects p).conn
          ≡ some (said k (new_rtt_response i)))
        × ((process_message c p (some (set_id new_rtt_request i))).asset_name ≡ c.asset_name)
  unfolding process_message set_id make body_type
  process_request c p i k conn usable = (
    ap (λ (x : FssServer F). x.conn)
          (update-same c.objects p (cb_send (c.objects p) (new_rtt_response i)).0)
        ∙ cb_send-said (c.objects p) k (new_rtt_response i) conn usable,
    refl,
  )

  handle_requests :
      (c : FssClient F) (p : ℕ) (k : Connection F) (is : List ℕ)
      → (c.objects p).conn ≡ some k
      → k.usable ≡ true
      → (((handle_queued c p (requests is)).objects p).conn ≡ some (says k (responses is)))
        × ((handle_queued c p (requests is)).asset_name ≡ c.asset_name)
        × ((says k (responses is)).usable ≡ true)
  unfolding handle_queued
  handle_requests c p k [] conn usable = (conn, refl, usable)
  handle_requests c p k (i ∷ is) conn usable =
      let (after, name) = process_request c p i k conn usable in
      let (all, names, up) =
        handle_requests (process_message c p (some (set_id new_rtt_request i))) p
          (said k (new_rtt_response i)) is after usable in
      (all, names ∙ name, up)

  -- The server as `setHandler` finds it: connected, its counters as the attempt starts.
  abbrev met : Network → ℕ → FssServer F → FssServer F
  met net ts s = record s {
    conn = some (record (connect_to net new_connection s.address s.port).0 { handler = true });
    retry_count = (s.retry_count + 1) % 2 ^ 64;
    retry_delay = next_delay s.retry_delay;
    last_tried = ts;
  }

  reconnect_queued-identify :
      (net : Network) (ts : ℕ) (c : FssClient F) (p : ℕ) (queued : List (Option (Message F)))
      → Due (c.objects p) ts
      → Reachable net (c.objects p)
      → let d = handle_queued (put_server c p (met net ts (c.objects p))) p queued in
        ((reconnect_queued net ts c p queued).1 ≡ true)
        × (((reconnect_queued net ts c p queued).0.objects p).conn
            ≡ (cb_send (d.objects p) (new_identity d.asset_name)).0.conn)
  unfolding reconnect_queued attempt_queued reconnect_to take_handler send_identify
  reconnect_queued-identify net ts c p queued due reachable =
      let e = ==_iff p p in (ground arith, ground arith)

  -- Messages packed under the ids behind a last one.
  abbrev pub frames : ℕ → List (Message F) → List BufLen
  frames last [] = []
  frames last (m ∷ ms) = let n = (last + 1) % 2 ^ 64 in get_packed (set_id m n) ∷ frames n ms

  says-frames :
      (k : Connection F) (ms : List (Message F)) (m : Message F)
      → (said (says k ms) m).sent ≡ k.sent ++ frames k.last_msg_id (ms ++ m ∷ [])
  says-frames k [] m = refl
  says-frames k (x ∷ xs) m =
      let n = (k.last_msg_id + 1) % 2 ^ 64 in
      says-frames (said k x) xs m
      ∙ append_assoc k.sent (get_packed (set_id x n) ∷ []) (frames n (xs ++ m ∷ []))

  -- An attempt that is due and whose network lets the server be reached, with round-trip requests
  -- queued on the new connection: the server is connected, and what it was sent is the answers, in
  -- the order of the requests, and behind them the identity, under the ids from 1 on.
  pub reconnect_queued-requests :
      (net : Network) (ts : ℕ) (c : FssClient F) (p : ℕ) (is : List ℕ)
      → Due (c.objects p) ts
      → Reachable net (c.objects p)
      → ((reconnect_queued net ts c p (requests is)).1 ≡ true)
        × ((k : Connection F) × (((reconnect_queued net ts c p (requests is)).0.objects p).conn
              ≡ some k)
            × (k.sent ≡ frames 0 (responses is ++ new_identity c.asset_name ∷ [])))
  reconnect_queued-requests net ts c p is due reachable =
      let s = c.objects p in
      let (nothing, zero, up) = connected_fresh F net s.address s.port in
      let k : Connection F = record (connect_to net new_connection s.address s.port).0 {
        handler = true;
      } in
      let start : FssClient F = put_server c p (met net ts s) in
      let (conn, name, usable) =
        handle_requests start p k is
          (ap (λ (x : FssServer F). x.conn) (update-same c.objects p (met net ts s)))
          (up ∙ reachable) in
      let d = handle_queued start p (requests is) in
      let (ok, same) = reconnect_queued-identify net ts c p (requests is) due reachable in
      (
        ok,
        (
          said (says k (responses is)) (new_identity c.asset_name),
          same
              ∙ cb_send-said (d.objects p) (says k (responses is)) (new_identity d.asset_name) conn
                  usable
              ∙ ap (λ n. some (said (says k (responses is)) (new_identity n))) name,
          says-frames k (responses is) (new_identity c.asset_name)
              ∙ ap (λ b. b ++ frames k.last_msg_id (responses is ++ new_identity c.asset_name ∷ []))
                  nothing
              ∙ ap (λ n. frames n (responses is ++ new_identity c.asset_name ∷ [])) zero,
        ),
      )
