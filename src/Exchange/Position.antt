-- ===== src/Exchange/Position.antt =====
-- A position report from one client over src/server.cpp to another client of src/client-ssl.cpp.
use flight_safety_system.Base.{
  ℕ, ◌%◌, ◌^◌, ◌<◌, ◌≡◌, refl, ap, ◌∙◌, Bool, true, false, [], ◌∷◌, ◌++◌, some, arith, ◌==◌,
  if◌then◌else◌, contains, length-append, length-be,
}
use flight_safety_system.Floats.{Floats}
use flight_safety_system.Message.{
  FssMessageType, Body, Message, PositionReport, body_type, set_id, get_latitude, get_longitude,
  get_altitude,
}
use flight_safety_system.Message.Pack.{get_packed}
use flight_safety_system.Message.Wire.{wire_size}
use flight_safety_system.Message.RoundTrip.Fields.{PositionInRange, position_received}
use flight_safety_system.Message.RoundTrip.{decode-get_packed}
use flight_safety_system.Connection.{get_message_id}
use flight_safety_system.Db.{Database, DbWrite, asset_add_position}
use flight_safety_system.Server.Stored.{entries_for, asset_add_position-entries_for}
use flight_safety_system.Server.{FssClient as ServerFssClient, client_send}
use flight_safety_system.Server.Clients.{ServerClients}
use flight_safety_system.Server.Process as ServerProcess
use flight_safety_system.Server.Registry.{WellFormed}
use flight_safety_system.Server.Relay.{relayed, position_report_stored}
use flight_safety_system.Client.{ClientCall}
use flight_safety_system.Client.Servers.{FssClient}
use flight_safety_system.Client.Process as ClientProcess
use flight_safety_system.Exchange.{carried, get_message_id-lt}
use flight_safety_system.Server.Commands.{client_send-sent}

module _ {F : Floats} where
  abbrev pub report : ℕ → PositionReport F → Message F
  report n r = record {
    id = n;
    type = FssMessageType.position_report;
    body = Body.position_report r;
  }

  carried-report :
      (n : ℕ) (r : PositionReport F)
      → n < 2 ^ 64
      → PositionInRange r
      → wire_size (Body.position_report r) < 2 ^ 16
      → carried (report n r) ≡ some (some (report n (position_received F r)))
  unfolding body_type
  carried-report n r hn h size =
      decode-get_packed (report n r) (record { id = hn; type = refl; in_range = h; size = size })

  received-PositionInRange :
      (r : PositionReport F) → PositionInRange r → PositionInRange (position_received F r)
  received-PositionInRange r h = record {
    timestamp = h.timestamp;
    altitude = h.altitude;
    icao_address = h.icao_address;
    heading = h.heading;
    horizontal_velocity = h.horizontal_velocity;
    vertical_velocity = h.vertical_velocity;
    squawk = h.squawk;
    flags = h.flags;
    altitude_type = h.altitude_type;
    emitter_type = h.emitter_type;
  }

  received-wire_size :
      (r : PositionReport F)
      → wire_size (Body.position_report (position_received F r))
        ≡ wire_size (Body.position_report r)
  received-wire_size r = simp (length-append, length-be) refl

  report-relayed :
      (c : ServerFssClient F) (q : ℕ) (p : ℕ) (listed : Bool) (n : ℕ) (r : PositionReport F)
      → listed ≡ true
      → c.aircraft ≡ true
      → q == p ≡ false
      → c.conn.usable ≡ true
      → (relayed listed (some p) q c (report n r)).conn.sent
        ≡ c.conn.sent ++ get_packed (report (get_message_id c.conn).0 r) ∷ []
  unfolding set_id client_send
  report-relayed c q p listed n r l a other up =
      let sent = client_send-sent c (report n r) up in rw (l, a, other) sent

  report_handled :
      (c : FssClient F) (k n : ℕ) (r : PositionReport F)
      → ClientProcess.process_message c k (some (report n r))
        ≡ record c { calls = c.calls ++ ClientCall.handle_position_report r ∷ [] }
  unfolding ClientProcess.process_message
  report_handled c k n r = refl

  stored_position :
      (db : Database F) (ts : ℕ) (s : ServerClients F) (p q n : ℕ) (r : PositionReport F)
      → WellFormed s
      → (s.objects p).identified ≡ true
      → ((ServerProcess.process_message db ts s p (some (report n r))).objects q
          ≡ relayed (contains q s.clients) (some p) q (s.objects q) (report n r))
        × ((ServerProcess.process_message db ts s p (some (report n r))).writes
            ≡ s.writes
              ++ (if (s.objects p).aircraft
                  then asset_add_position db (s.objects p).name r.latitude r.longitude r.altitude
                  else []))
  unfolding get_latitude get_longitude get_altitude
  stored_position db ts s p q n r w known =
      position_report_stored db ts s p q (report n r) w known refl

  -- A position report of an identified client at `p`, its fields within their widths, to a server
  -- that holds no client twice and has another listed aircraft at `q`, whose connection is usable:
  -- the server decodes the report with its coordinates as the wire rounds them; it stores that
  -- position, if the sender is an aircraft that the database knows; it sends the report to `q` under
  -- the next id of that connection; the client there decodes it, the coordinates rounded once more,
  -- and its application is called once, with that report.
  pub position_exchange :
      (db : Database F) (ts : ℕ) (s : ServerClients F) (p q n : ℕ) (r : PositionReport F)
      (c : FssClient F) (k : ℕ)
      → WellFormed s
      → (s.objects p).identified ≡ true
      → contains q s.clients ≡ true
      → (s.objects q).aircraft ≡ true
      → q == p ≡ false
      → (s.objects q).conn.usable ≡ true
      → n < 2 ^ 64
      → PositionInRange r
      → wire_size (Body.position_report r) < 2 ^ 16
      → let once = position_received F r in
        let twice = position_received F once in
        let after = ServerProcess.process_message db ts s p (some (report n once)) in
        let next = (get_message_id (s.objects q).conn).0 in
        (carried (report n r) ≡ some (some (report n once)))
        × (after.writes
            ≡ s.writes
              ++ (if (s.objects p).aircraft
                  then entries_for (db.db_get_asset_id (s.objects p).name) (λ id.
                    DbWrite.position_entry id once.latitude once.longitude (once.altitude % 2 ^ 16))
                  else []))
        × ((after.objects q).conn.sent
            ≡ (s.objects q).conn.sent ++ get_packed (report next once) ∷ [])
        × (carried (report next once) ≡ some (some (report next twice)))
        × (ClientProcess.process_message c k (some (report next twice))
            ≡ record c { calls = c.calls ++ ClientCall.handle_position_report twice ∷ [] })
  position_exchange db ts s p q n r c k w known listed flies other up hn h size =
      let once = position_received F r in
      let next = (get_message_id (s.objects q).conn).0 in
      let (object, written) = stored_position db ts s p q n once w known in
      (
        carried-report n r hn h size,
        written
            ∙ ap (λ e. s.writes ++ (if (s.objects p).aircraft then e else []))
                (asset_add_position-entries_for db (s.objects p).name once.latitude once.longitude
                  once.altitude),
        ap (λ (x : ServerFssClient F). x.conn.sent) object
            ∙ report-relayed (s.objects q) q p (contains q s.clients) n once listed flies other up,
        carried-report next once (get_message_id-lt (s.objects q).conn)
            (received-PositionInRange r h) (omega (arith, received-wire_size r, size)),
        report_handled c k next (position_received F once),
      )
