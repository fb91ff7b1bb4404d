-- ===== src/Server/Commands.antt =====
-- The commands that src/server.cpp sends, and when it sends them again.
use flight_safety_system.Base.{
  ℕ, ◌+◌, ◌^◌, ◌<◌, Bool, true, false, [], ◌∷◌, ◌++◌, some, ltb, if◌then◌else◌, append-nil, ◌≡◌,
  sym, ap, subst, ◌∙◌, ==_iff, Bool-cases, inl, inr, arith,
}
use flight_safety_system.Floats.{Floats}
use flight_safety_system.Message.{Message, set_id}
use flight_safety_system.Message.Pack.{get_packed}
use flight_safety_system.Message.Valid.{get_packed-is_valid}
use flight_safety_system.Connection.{send_msg, send_session_msg, get_message_id}
use flight_safety_system.Db.{Database, AssetCommand, asset_get_command}
use flight_safety_system.Server.{
  FssClient, client_send, command_message, command_is_due, send_command,
}

module _ {F : Floats} where
  -- The client after a command was sent to it.
  abbrev commanded : FssClient F → AssetCommand F → ℕ → FssClient F
  commanded c ac ts =
      (client_send (record c { last_command_send_ts = ts; last_command_dbid = ac.dbid })
        (command_message ac)).0

  send_command_due :
      (db : Database F) (c : FssClient F) (ac : AssetCommand F) (ts : ℕ)
      → asset_get_command db c.name ≡ some ac
      → command_is_due c ac ts ≡ true
      → send_command db ts c ≡ commanded c ac ts
  unfolding send_command
  send_command_due db c ac ts known due = ground arith

  send_command_not_due :
      (db : Database F) (c : FssClient F) (ac : AssetCommand F) (ts : ℕ)
      → asset_get_command db c.name ≡ some ac
      → command_is_due c ac ts ≡ false
      → send_command db ts c ≡ c
  unfolding send_command
  send_command_not_due db c ac ts known due = ground arith

  commanded-due :
      (c : FssClient F) (ac : AssetCommand F) (ts later : ℕ)
      → ts + 10000 < 2 ^ 64
      → command_is_due (commanded c ac ts) ac later ≡ ltb (ts + 10000) later
  unfolding client_send command_is_due
  commanded-due c ac ts later small = let e = ==_iff ac.dbid ac.dbid in ground arith

  -- What a usable connection has sent after a message, which gets the next id of the connection.
  pub client_send-sent :
      (c : FssClient F) (m : Message F)
      → c.conn.usable ≡ true
      → (client_send c m).0.conn.sent
        ≡ c.conn.sent ++ get_packed (set_id m (get_message_id c.conn).0) ∷ []
  unfolding client_send send_msg send_session_msg get_message_id
  client_send-sent c m up =
      let valid = get_packed-is_valid (set_id m (get_message_id c.conn).0) in ground arith

  commanded-kept :
      (c : FssClient F) (ac : AssetCommand F) (ts : ℕ)
      → ((commanded c ac ts).name ≡ c.name) × ((commanded c ac ts).conn.usable ≡ c.conn.usable)
  unfolding client_send send_msg send_session_msg get_message_id
  commanded-kept c ac ts = ground arith

  sent_again :
      (db : Database F) (c : FssClient F) (ac : AssetCommand F) (ts later : ℕ)
      → asset_get_command db c.name ≡ some ac
      → ts + 10000 < 2 ^ 64
      → c.conn.usable ≡ true
      → (send_command db later (commanded c ac ts)).conn.sent
        ≡ (commanded c ac ts).conn.sent
          ++ (if ltb (ts + 10000) later
              then get_packed
                  (set_id (command_message ac) (get_message_id (commanded c ac ts).conn).0)
                ∷ []
              else [])
  sent_again db c ac ts later known small up =
      let d = commanded c ac ts in
      let (its_name, its_use) = commanded-kept c ac ts in
      let known' = ap (asset_get_command db) its_name ∙ known in
      let due_eq = commanded-due c ac ts later small in
      let tail = (λ (b : Bool).
        if b
        then get_packed (set_id (command_message ac) (get_message_id d.conn).0) ∷ []
        else []) in
      elim (Bool-cases (ltb (ts + 10000) later)) [
        | inl due ↦
            ap (λ (x : FssClient F). x.conn.sent)
              (send_command_due db d ac later known' (due_eq ∙ due))
            ∙ client_send-sent
                (record d { last_command_send_ts = later; last_command_dbid = ac.dbid })
                (command_message ac) (its_use ∙ up)
            ∙ ap (λ b. d.conn.sent ++ tail b) (sym due)
        | inr early ↦
            ap (λ (x : FssClient F). x.conn.sent)
              (send_command_not_due db d ac later known' (due_eq ∙ early))
            ∙ sym (append-nil d.conn.sent)
            ∙ ap (λ b. d.conn.sent ++ tail b) (sym early)
      ]

  -- A command of the database that is due, the connection being usable: it is sent once, under the
  -- next id. When the client is looked at again with the same command in the database, the command
  -- is sent again if more than ten seconds have passed, and nothing is sent if not.
  pub send_command_again :
      (db : Database F) (c : FssClient F) (ac : AssetCommand F) (ts later : ℕ)
      → asset_get_command db c.name ≡ some ac
      → command_is_due c ac ts ≡ true
      → ts + 10000 < 2 ^ 64
      → c.conn.usable ≡ true
      → let c' = send_command db ts c in
        (c'.conn.sent
          ≡ c.conn.sent ++ get_packed (set_id (command_message ac) (get_message_id c.conn).0) ∷ [])
        × ((send_command db later c').conn.sent
            ≡ c'.conn.sent
              ++ (if ltb (ts + 10000) later
                  then get_packed (set_id (command_message ac) (get_message_id c'.conn).0) ∷ []
                  else []))
  send_command_again db c ac ts later known due small up =
      subst
        (λ (x : FssClient F).
          (x.conn.sent
            ≡ c.conn.sent
              ++ get_packed (set_id (command_message ac) (get_message_id c.conn).0) ∷ [])
          × ((send_command db later x).conn.sent
              ≡ x.conn.sent
                ++ (if ltb (ts + 10000) later
                    then get_packed (set_id (command_message ac) (get_message_id x.conn).0) ∷ []
                    else [])))
        (sym (send_command_due db c ac ts known due))
        (
          client_send-sent (record c { last_command_send_ts = ts; last_command_dbid = ac.dbid })
              (command_message ac) up,
          sent_again db c ac ts later known small up,
        )
