-- ===== src/Exchange/Status.antt =====
-- The status and the search of an aircraft, from src/client-ssl.cpp to the database of src/server.cpp.
use flight_safety_system.Base.{
  ℕ, ◌^◌, ◌<◌, ◌≡◌, refl, ap, ◌∙◌, true, ◌++◌, some, arith, length-be, length-append,
}
use flight_safety_system.Floats.{Floats}
use flight_safety_system.Message.{
  FssMessageType, Body, Message, SystemStatus, SearchStatus, body_type, set_id,
}
use flight_safety_system.Message.Constructors.{new_system_status, new_search_status}
use flight_safety_system.Message.RoundTrip.Fields.{system_status_received}
use flight_safety_system.Message.RoundTrip.{decode-get_packed}
use flight_safety_system.Server.Stored.{
  entries_for, asset_add_status-entries_for, asset_add_search_status-entries_for,
}
use flight_safety_system.Db.{Database, DbWrite, asset_add_status, asset_add_search_status}
use flight_safety_system.Server.Clients.{ServerClients}
use flight_safety_system.Server.Process.{process_message, process_identified}
use flight_safety_system.Exchange.{carried}

module _ {F : Floats} where
  abbrev pub status_at : ℕ → SystemStatus F → Message F
  status_at n x = record {
    id = n;
    type = FssMessageType.system_status;
    body = Body.system_status x;
  }

  abbrev pub search_at : ℕ → SearchStatus → Message F
  search_at n x = record {
    id = n;
    type = FssMessageType.search_status;
    body = Body.search_status x;
  }

  carried-status :
      (n : ℕ) (x : SystemStatus F)
      → n < 2 ^ 64
      → x.bat_percent < 2 ^ 8
      → x.mah_used < 2 ^ 32
      → carried (status_at n x) ≡ some (some (status_at n (system_status_received F x)))
  unfolding body_type
  carried-status n x h b m = decode-get_packed (status_at n x) (record {
    id = h;
    type = refl;
    in_range = (b, m);
    size = simp (length-append, length-be) (omega arith);
  })

  carried-search :
      (n : ℕ) (x : SearchStatus)
      → n < 2 ^ 64
      → x.search_id < 2 ^ 64
      → x.point_completed < 2 ^ 64
      → x.points_total < 2 ^ 64
      → carried (search_at n x) ≡ some (some (search_at n x))
  unfolding body_type
  carried-search n x h a b c = decode-get_packed (search_at n x) (record {
    id = h;
    type = refl;
    in_range = (a, b, c);
    size = simp (length-append, length-be) (omega arith);
  })

  stored_status :
      (db : Database F) (ts : ℕ) (s : ServerClients F) (p n : ℕ) (x : SystemStatus F)
      → (s.objects p).identified ≡ true
      → process_message db ts s p (some (status_at n x)) ≡ record s {
        writes =
            s.writes ++ asset_add_status db (s.objects p).name x.bat_percent x.mah_used x.voltage;
      }
  unfolding process_message process_identified
  stored_status db ts s p n x known = ground arith

  stored_search :
      (db : Database F) (ts : ℕ) (s : ServerClients F) (p n : ℕ) (x : SearchStatus)
      → (s.objects p).identified ≡ true
      → process_message db ts s p (some (search_at n x)) ≡ record s {
        writes =
            s.writes
            ++ asset_add_search_status db
                (s.objects p).name
                x.search_id
                x.point_completed
                x.points_total;
      }
  unfolding process_message process_identified
  stored_search db ts s p n x known = ground arith

  -- A status and a search that the constructors make of values within their widths, sent under any
  -- ids by a client that the server has identified: the server decodes both as they were sent, with
  -- the voltage as the wire rounds it, and stores each once under the asset of the client's name, if
  -- the database knows it; nothing else of the server changes.
  pub status_exchange :
      (db : Database F) (ts : ℕ) (s : ServerClients F) (p n k percent mah : ℕ) (voltage : F.Double)
      (search done total : ℕ)
      → (s.objects p).identified ≡ true
      → n < 2 ^ 64
      → k < 2 ^ 64
      → percent < 2 ^ 8
      → mah < 2 ^ 32
      → search < 2 ^ 64
      → done < 2 ^ 64
      → total < 2 ^ 64
      → let x : SystemStatus F = record {
        bat_percent = percent;
        mah_used = mah;
        voltage = voltage;
      } in
        let y = system_status_received F x in
        let z : SearchStatus = record {
          search_id = search;
          point_completed = done;
          points_total = total;
        } in
        let name = (s.objects p).name in
        (carried (set_id (new_system_status percent mah voltage) n) ≡ some (some (status_at n y)))
        × (process_message db ts s p (some (status_at n y)) ≡ record s {
          writes =
              s.writes
              ++ entries_for
                  (db.db_get_asset_id name)
                  (λ id. DbWrite.status_entry id percent mah y.voltage);
        })
        × (carried (set_id {F = F} (new_search_status search done total) k)
            ≡ some (some (search_at k z)))
        × (process_message db ts s p (some (search_at k z)) ≡ record s {
          writes =
              s.writes
              ++ entries_for
                  (db.db_get_asset_id name)
                  (λ id. DbWrite.search_status_entry id search done total);
        })
  unfolding new_system_status new_search_status set_id body_type
  status_exchange db ts s p n k percent mah voltage search done total known hn hk hp hm a b c =
      let x : SystemStatus F = record {
        bat_percent = percent;
        mah_used = mah;
        voltage = voltage;
      } in
      let z : SearchStatus = record {
        search_id = search;
        point_completed = done;
        points_total = total;
      } in
      let y = system_status_received F x in
      (
        carried-status n x hn hp hm,
        stored_status db ts s p n y known
            ∙ ap (λ e. record s { writes = s.writes ++ e })
                (asset_add_status-entries_for db (s.objects p).name percent mah y.voltage),
        carried-search k z hk a b c,
        stored_search db ts s p k z known
            ∙ ap (λ e. record s { writes = s.writes ++ e })
                (asset_add_search_status-entries_for db (s.objects p).name search done total),
      )
