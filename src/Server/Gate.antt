-- ===== src/Server/Gate.antt =====
-- What `fss_client::processMessage` of src/server.cpp lets a client do before and after it has
-- identified itself.
use flight_safety_system.Base.{
  ℕ, ◌+◌, ◌-◌, ◌%◌, ◌^◌, true, false, not, List, [], ◌∷◌, ◌++◌, Option, none, some, ◌==◌,
  if◌then◌else◌, append-nil, ◌≡◌, ◌≢◌, refl, sym, ap, subst, ◌∙◌, ◌⊎◌, inl, inr, ==_iff, Bool-cases,
  Option-cases, true≢false, arith, contains, remove-contains,
}
use flight_safety_system.Floats.{Floats}
use flight_safety_system.Message.{
  FssMessageType, Message, Body, get_latitude, get_longitude, get_altitude,
}
use flight_safety_system.Connection.{get_client_names}
use flight_safety_system.Db.{
  Database, DbWrite, asset_add_rtt, asset_add_status, asset_add_search_status, asset_add_position,
}
use flight_safety_system.Server.{client_send, send_command, send_smm_settings}
use flight_safety_system.Server.Clients.{ServerClients, client_disconnected, send_msg_all}
use flight_safety_system.Server.Process.{
  name_is_possible, welcome, identify, process_unidentified, process_rtt_response,
  process_identified, process_message, take_rtt,
}
use flight_safety_system.Server.Names.{MayBe, name_is_possible-MayBe}

module _ {F : Floats} where
  -- The asset that an entry is stored under.
  abbrev pub asset_of : DbWrite F → ℕ
  asset_of (DbWrite.rtt_entry a _) = a
  asset_of (DbWrite.status_entry a _ _ _) = a
  asset_of (DbWrite.search_status_entry a _ _ _) = a
  asset_of (DbWrite.position_entry a _ _ _) = a

  -- A client that is not identified stores nothing in the database, and no message of it changes the
  -- object of another client.
  pub unidentified_writes_nothing :
      (db : Database F) (ts : ℕ) (s : ServerClients F) (p q : ℕ) (m : Option (Message F))
      → (s.objects p).identified ≡ false
      → q ≢ p
      → ((process_message db ts s p m).writes ≡ s.writes)
        × ((process_message db ts s p m).objects q ≡ s.objects q)
  unfolding process_message process_unidentified identify client_disconnected
  unidentified_writes_nothing db ts s p q none h other = (refl, refl)
  unidentified_writes_nothing db ts s p q (some m) h other =
      let e = ==_iff q p in (ground arith, ground arith)

  identify-identified :
      (db : Database F) (ts : ℕ) (s : ServerClients F) (p : ℕ) (name : List ℕ)
      → (s.objects p).identified ≡ false
      → ((identify db ts s p name).objects p).identified
        ≡ name_is_possible (get_client_names (s.objects p).conn) name
  unfolding identify welcome send_command send_smm_settings client_send client_disconnected
  identify-identified db ts s p name h = ground arith

  identify-accepted :
      (db : Database F) (ts : ℕ) (s : ServerClients F) (p : ℕ) (name : List ℕ)
      → name_is_possible (get_client_names (s.objects p).conn) name ≡ true
      → (((identify db ts s p name).objects p).aircraft ≡ true)
        × (((identify db ts s p name).objects p).name ≡ name)
        × ((identify db ts s p name).clients ≡ s.clients)
  unfolding identify welcome send_command send_smm_settings client_send client_disconnected
  identify-accepted db ts s p name h = ground arith

  identify_refused :
      (db : Database F) (ts : ℕ) (s : ServerClients F) (p : ℕ) (name : List ℕ)
      → name_is_possible (get_client_names (s.objects p).conn) name ≡ false
      → s.shutting_down ≡ false
      → contains p (identify db ts s p name).clients ≡ false
  unfolding identify client_disconnected
  identify_refused db ts s p name h up = let gone = remove-contains p s.clients in ground arith

  identity-identify :
      (db : Database F) (ts : ℕ) (s : ServerClients F) (p : ℕ) (m : Message F) (name : List ℕ)
      → (s.objects p).identified ≡ false
      → m.type ≡ FssMessageType.identity
      → m.body ≡ Body.identity name
      → process_message db ts s p (some m) ≡ identify db ts s p name
  unfolding process_message process_unidentified
  identity-identify db ts s p m name new kind content = ground arith

  -- The two outcomes of an identity message.
  abbrev pub Decided : List ℕ → ServerClients F → ServerClients F → ℕ → Type 0
  Decided name before after p =
      (MayBe name (get_client_names (before.objects p).conn)
        × ((after.objects p).identified ≡ true)
        × ((after.objects p).aircraft ≡ true)
        × ((after.objects p).name ≡ name)
        × (after.clients ≡ before.clients))
      ⊎ (¬ MayBe name (get_client_names (before.objects p).conn)
          × ((after.objects p).identified ≡ false)
          × (contains p after.clients ≡ false))

  identify-Decided :
      (db : Database F) (ts : ℕ) (s : ServerClients F) (p : ℕ) (name : List ℕ)
      → (s.objects p).identified ≡ false
      → s.shutting_down ≡ false
      → Decided name s (identify db ts s p name) p
  identify-Decided db ts s p name new up =
      let names = get_client_names (s.objects p).conn in
      let decided = identify-identified db ts s p name new in
      let iff = name_is_possible-MayBe names name in
      elim (Bool-cases (name_is_possible names name)) [
        | inl may ↦
            let (flies, its_name, kept) = identify-accepted db ts s p name may in
            inl (iff.0 may, decided ∙ may, flies, its_name, kept)
        | inr refused ↦ inr (
          λ h. true≢false (sym (iff.1 h) ∙ refused),
          decided ∙ refused,
          identify_refused db ts s p name refused up,
        )
      ]

  -- An identity message of a client that is not identified, the server not shutting down: if the
  -- client may take the name, it is identified afterwards, an aircraft of that name, and the list of
  -- clients stays; if it may not, it stays unidentified and is out of that list.
  pub identity-Decided :
      (db : Database F) (ts : ℕ) (s : ServerClients F) (p : ℕ) (m : Message F) (name : List ℕ)
      → (s.objects p).identified ≡ false
      → s.shutting_down ≡ false
      → m.type ≡ FssMessageType.identity
      → m.body ≡ Body.identity name
      → Decided name s (process_message db ts s p (some m)) p
  identity-Decided db ts s p m name new up kind content =
      subst (λ after. Decided name s after p)
        (sym (identity-identify db ts s p m name new kind content))
        (identify-Decided db ts s p name new up)

  -- Nothing is stored, or one entry under the asset that the database knows by the name.
  abbrev pub StoresOwn : Database F → List ℕ → List (DbWrite F) → List (DbWrite F) → Type 0
  StoresOwn db name before after =
      (after ≡ before)
      ⊎ ((e : DbWrite F) × (after ≡ before ++ e ∷ [])
          × (asset_of e ≡ db.db_get_asset_id name)
          × (db.db_get_asset_id name ≢ 0))

  one_entry-StoresOwn :
      (db : Database F) (name : List ℕ) (before : List (DbWrite F)) (e : DbWrite F)
      → asset_of e ≡ db.db_get_asset_id name
      → StoresOwn db name before
          (before ++ (if not (db.db_get_asset_id name == 0) then e ∷ [] else []))
  one_entry-StoresOwn db name before e own = elim (Bool-cases (db.db_get_asset_id name == 0)) [
    | inl unknown ↦
        inl (ap (λ b. before ++ (if not b then e ∷ [] else [])) unknown ∙ append-nil before)
    | inr known ↦ inr (
      e,
      ap (λ b. before ++ (if not b then e ∷ [] else [])) known,
      own,
      λ zero. true≢false (sym ((==_iff (db.db_get_asset_id name) 0).1 zero) ∙ known),
    )
  ]

  rtt-StoresOwn :
      (db : Database F) (ts : ℕ) (s : ServerClients F) (p request_id : ℕ)
      → StoresOwn db (s.objects p).name s.writes (process_rtt_response db ts s p request_id).writes
  unfolding process_rtt_response asset_add_rtt
  rtt-StoresOwn db ts s p request_id =
      let found = take_rtt request_id (s.objects p).outstanding_rtt_requests in
      elim (Option-cases found) [
        | inl nothing ↦ inl (ground arith)
        | inr ((req, left), eq) ↦ subst (StoresOwn db (s.objects p).name s.writes) (ground arith) (
            one_entry-StoresOwn db (s.objects p).name s.writes
              (DbWrite.rtt_entry (db.db_get_asset_id (s.objects p).name)
                ((ts + 2 ^ 64 - req.timestamp) % 2 ^ 64))
              refl)
      ]

  position-StoresOwn :
      (db : Database F) (ts : ℕ) (s : ServerClients F) (p : ℕ) (m : Message F)
      → m.type ≡ FssMessageType.position_report
      → StoresOwn db (s.objects p).name s.writes (process_identified db ts s p m).writes
  unfolding process_identified asset_add_position send_msg_all
  position-StoresOwn db ts s p m kind =
      let name = (s.objects p).name in
      let e =
        DbWrite.position_entry (db.db_get_asset_id name) (get_latitude m.body)
          (get_longitude m.body) (get_altitude m.body % 2 ^ 16) in
      elim (Bool-cases (s.objects p).aircraft) [
        | inl flies ↦
            subst (StoresOwn db name s.writes) (ground arith)
              (one_entry-StoresOwn db name s.writes e refl)
        | inr other ↦ inl (ground arith)
      ]

  process_identified-StoresOwn :
      (db : Database F) (ts : ℕ) (s : ServerClients F) (p id : ℕ) (t : FssMessageType) (b : Body F)
      → StoresOwn db
          (s.objects p).name
          s.writes
          (process_identified db ts s p (record { id = id; type = t; body = b })).writes
  unfolding process_identified asset_add_status asset_add_search_status
  process_identified-StoresOwn db ts s p id FssMessageType.position_report b =
      position-StoresOwn db ts s p
        (record { id = id; type = FssMessageType.position_report; body = b }) refl
  process_identified-StoresOwn db ts s p id FssMessageType.rtt_response (Body.rtt_response r) =
      rtt-StoresOwn db ts s p r
  process_identified-StoresOwn db ts s p id FssMessageType.rtt_response b = inl refl
  process_identified-StoresOwn db ts s p id FssMessageType.system_status (Body.system_status x) =
      one_entry-StoresOwn db (s.objects p).name s.writes _ refl
  process_identified-StoresOwn db ts s p id FssMessageType.system_status b = inl refl
  process_identified-StoresOwn db ts s p id FssMessageType.search_status (Body.search_status x) =
      one_entry-StoresOwn db (s.objects p).name s.writes _ refl
  process_identified-StoresOwn db ts s p id FssMessageType.search_status b = inl refl
  process_identified-StoresOwn db ts s p id t b = inl refl

  identified_cases :
      (db : Database F) (ts : ℕ) (s : ServerClients F) (p : ℕ) (m : Message F)
      → (s.objects p).identified ≡ true
      → ((process_message db ts s p (some m)).writes ≡ s.writes)
        ⊎ (process_message db ts s p (some m) ≡ process_identified db ts s p m)
  unfolding process_message client_disconnected
  identified_cases db ts s p m known = ground arith

  -- Each message stores nothing or one entry. An entry comes from an identified client, and stands
  -- under the asset that the database knows by the client's name.
  pub process_message-StoresOwn :
      (db : Database F) (ts : ℕ) (s : ServerClients F) (p : ℕ) (m : Option (Message F))
      → ((process_message db ts s p m).writes ≡ s.writes)
        ⊎ (((s.objects p).identified ≡ true)
            × StoresOwn db (s.objects p).name s.writes (process_message db ts s p m).writes)
  unfolding process_message process_unidentified identify client_disconnected
  process_message-StoresOwn db ts s p none = inl refl
  process_message-StoresOwn db ts s p (some m) = elim (Bool-cases (s.objects p).identified) [
    | inl known ↦ elim (identified_cases db ts s p m known) [
      | inl closed ↦ inl closed
      | inr same ↦ inr (
        known,
        subst (λ t. StoresOwn db (s.objects p).name s.writes t.writes) (sym same)
            (process_identified-StoresOwn db ts s p m.id m.type m.body),
      )
    ]
    | inr new ↦ inl (ground arith)
  ]
