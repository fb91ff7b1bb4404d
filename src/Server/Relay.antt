-- ===== src/Server/Relay.antt =====
-- What the loops over the clients in src/server.cpp do to each client: a loop visits a client that
-- is listed once, and what it does to one client does not hang on the others.
use flight_safety_system.Base.{
  ℕ, ◌%◌, ◌^◌, ◌≤◌, Bool, true, false, not, ◌&&◌, List, [], ◌∷◌, ◌++◌, Option, some, ◌==◌,
  if◌then◌else◌, ◌≡◌, append-nil, refl, ap, subst, ◌∙◌, ==_iff, Bool-cases, inl, inr, arith,
  contains, count, contains-count, update,
}
use flight_safety_system.Floats.{Floats}
use flight_safety_system.Message.{
  FssMessageType, Message, set_id, get_latitude, get_longitude, get_altitude,
}
use flight_safety_system.Connection.{send_msg}
use flight_safety_system.Db.{Database, DbWrite, asset_add_position}
use flight_safety_system.Server.Stored.{entries_for, asset_add_position-entries_for}
use flight_safety_system.Server.{FssClient, client_send}
use flight_safety_system.Server.Clients.{ServerClients, is_except, send_each, send_msg_all}
use flight_safety_system.Server.Process.{process_message, process_identified}
use flight_safety_system.Server.Registry.{WellFormed}

module _ {F : Floats} where
  -- A message is given a new id when it is sent: the id it had does not matter.
  client_send-set_id :
      (c : FssClient F) (m : Message F) (n : ℕ)
      → (client_send c (set_id m n)).0 ≡ (client_send c m).0
  unfolding client_send send_msg set_id
  client_send-set_id c m n = refl

  client_send_renamed :
      (c d : FssClient F) (m : Message F)
      → (client_send c (client_send d m).1).0 ≡ (client_send c m).0
  unfolding client_send send_msg set_id
  client_send_renamed c d m = refl

  -- What a visit of the loop of `sendMsg` does, `wanted` being its test.
  abbrev visit : Bool → (ℕ → FssClient F) → ℕ → Message F → ℕ → FssClient F
  visit wanted objects p m =
      if wanted then update objects p (client_send (objects p) m).0 else objects

  abbrev passed_on : Bool → (ℕ → FssClient F) → ℕ → Message F → Message F
  passed_on wanted objects p m = if wanted then (client_send (objects p) m).1 else m

  visit-other :
      (wanted : Bool) (objects : ℕ → FssClient F) (p : ℕ) (m : Message F) (q : ℕ)
      → p == q ≡ false
      → visit wanted objects p m q ≡ objects q
  visit-other wanted objects p m q h = ground arith

  visit-same :
      (wanted : Bool) (objects : ℕ → FssClient F) (p : ℕ) (m : Message F)
      → visit wanted objects p m p ≡ (if wanted then (client_send (objects p) m).0 else objects p)
  visit-same wanted objects p m = ground arith

  -- Whether the loop sends to a client.
  abbrev is_wanted : Option ℕ → (ℕ → FssClient F) → ℕ → Bool
  is_wanted except objects p = (objects p).aircraft && not (is_except except p)

  send_each_other :
      (ps : List ℕ) (except : Option ℕ) (objects : ℕ → FssClient F) (m : Message F) (q : ℕ)
      → contains q ps ≡ false
      → send_each ps except objects m q ≡ objects q
  unfolding send_each
  send_each_other [] except objects m q h = refl
  send_each_other (p ∷ ps) except objects m q h =
      let w = is_wanted except objects p in
      send_each_other ps except (visit w objects p m) (passed_on w objects p m) q (ground arith)
      ∙ visit-other w objects p m q (ground arith)

  -- What one client sees of `sendMsg(msg, except)`.
  abbrev pub relayed : Bool → Option ℕ → ℕ → FssClient F → Message F → FssClient F
  relayed listed except q c m =
      if listed && (c.aircraft && not (is_except except q)) then (client_send c m).0 else c

  passed_on-relayed :
      (wanted listed : Bool) (except : Option ℕ) (objects : ℕ → FssClient F) (p : ℕ) (m : Message F)
      (q : ℕ) (c : FssClient F)
      → relayed listed except q c (passed_on wanted objects p m) ≡ relayed listed except q c m
  passed_on-relayed true listed except objects p m q c =
      ap (λ x. if listed && (c.aircraft && not (is_except except q)) then x else c)
        (client_send_renamed c (objects p) m)
  passed_on-relayed false listed except objects p m q c = refl

  pub send_each-relayed :
      (ps : List ℕ) (except : Option ℕ) (objects : ℕ → FssClient F) (m : Message F) (q : ℕ)
      → count q ps ≤ 1
      → send_each ps except objects m q ≡ relayed (contains q ps) except q (objects q) m
  unfolding send_each
  send_each-relayed [] except objects m q h = refl
  send_each-relayed (p ∷ ps) except objects m q h =
      let w = is_wanted except objects p in
      elim (Bool-cases (p == q)) [
        | inl same ↦
            let held = contains-count q ps in
            send_each_other ps except (visit w objects p m) (passed_on w objects p m) q
              (ground arith)
            ∙ subst
                (λ x. visit w objects p m x ≡ relayed (contains x (p ∷ ps)) except x (objects x) m)
                ((==_iff p q).0 same) (visit-same w objects p m ∙ ground arith)
        | inr other ↦
            send_each-relayed ps except (visit w objects p m) (passed_on w objects p m) q
              (ground arith)
            ∙ passed_on-relayed w (contains q ps) except objects p m q (visit w objects p m q)
            ∙ ap (λ c. relayed (contains q ps) except q c m) (visit-other w objects p m q other)
            ∙ ap (λ b. relayed b except q (objects q) m) (ground arith)
      ]

  -- The same by the operations of the model.
  pub position_report_stored :
      (db : Database F) (ts : ℕ) (s : ServerClients F) (p q : ℕ) (m : Message F)
      → WellFormed s
      → (s.objects p).identified ≡ true
      → m.type ≡ FssMessageType.position_report
      → ((process_message db ts s p (some m)).objects q
          ≡ relayed (contains q s.clients) (some p) q (s.objects q) m)
        × ((process_message db ts s p (some m)).writes
            ≡ s.writes
              ++ (if (s.objects p).aircraft
                  then asset_add_position db
                      (s.objects p).name
                      (get_latitude m.body)
                      (get_longitude m.body)
                      (get_altitude m.body)
                  else []))
  unfolding process_message process_identified send_msg_all
  position_report_stored db ts s p q m w known kind =
      let once : count q s.clients ≤ 1 = (let o = w.once q in ground arith) in
      let h = send_each-relayed s.clients (some p) s.objects m q once in
      let n = append-nil s.writes in (ground arith, ground arith)

  relayed-others :
      (listed : Bool) (p q : ℕ) (c : FssClient F) (m : Message F)
      → relayed listed (some p) q c m
        ≡ (if listed && (c.aircraft && not (q == p)) then (client_send c m).0 else c)
  relayed-others listed p q c m = ground arith

  -- A position report of an identified client, the clients being held once each: each client `q`
  -- in the list that is an aircraft and not the sender is sent the report once, under an id of its
  -- own connection, and the object of any other `q` stays. What is stored is one position, if the
  -- sender is an aircraft that the database knows, and nothing if not.
  pub position_report-relayed :
      (db : Database F) (ts : ℕ) (s : ServerClients F) (p q : ℕ) (m : Message F)
      → WellFormed s
      → (s.objects p).identified ≡ true
      → m.type ≡ FssMessageType.position_report
      → ((process_message db ts s p (some m)).objects q ≡ (
          if contains q s.clients && ((s.objects q).aircraft && not (q == p))
          then (client_send (s.objects q) m).0
          else s.objects q))
        × ((process_message db ts s p (some m)).writes
            ≡ s.writes
              ++ (if (s.objects p).aircraft
                  then entries_for (db.db_get_asset_id (s.objects p).name) (λ id.
                    DbWrite.position_entry id
                      (get_latitude m.body)
                      (get_longitude m.body)
                      (get_altitude m.body % 2 ^ 16))
                  else []))
  position_report-relayed db ts s p q m w known kind =
      let (object, stored) = position_report_stored db ts s p q m w known kind in
      let entry =
        asset_add_position-entries_for db (s.objects p).name (get_latitude m.body)
          (get_longitude m.body) (get_altitude m.body) in
      (
        object ∙ relayed-others (contains q s.clients) p q (s.objects q) m,
        stored ∙ ap (λ e. s.writes ++ (if (s.objects p).aircraft then e else [])) entry,
      )
