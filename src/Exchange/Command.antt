-- ===== src/Exchange/Command.antt =====
-- A command from the database of src/server.cpp to the application of src/client-ssl.cpp.
use flight_safety_system.Base.{
  ℕ, ◌+◌, ◌^◌, ◌<◌, ◌≡◌, refl, ap, ◌∙◌, true, [], ◌∷◌, ◌++◌, some, arith, length-be, length-append,
}
use flight_safety_system.Floats.{Floats, to_fixed, from_fixed_single}
use flight_safety_system.Message.{
  FssMessageType, FssAssetCommand, Body, Message, CommandMessage, make, set_id, body_type,
  plain_command, goto_command, altitude_command,
}
use flight_safety_system.Message.Pack.{get_packed}
use flight_safety_system.Message.RoundTrip.Fields.{CommandInRange, command_received}
use flight_safety_system.Message.RoundTrip.{decode-get_packed}
use flight_safety_system.Connection.{get_message_id}
use flight_safety_system.Db.{Database, AssetCommand, asset_get_command}
use flight_safety_system.Server.{
  FssClient as ServerFssClient, send_command, command_is_due, command_message,
}
use flight_safety_system.Server.Commands.{send_command_again}
use flight_safety_system.Client.{ClientCall}
use flight_safety_system.Client.Servers.{FssClient}
use flight_safety_system.Client.Process as ClientProcess
use flight_safety_system.Exchange.{carried, get_message_id-lt}

-- A coordinate of a command as the other side reads it.
abbrev pub fixed : (F : Floats) → F.Double → F.Double
fixed F x = from_fixed_single F (to_fixed F x)

module _ {F : Floats} where
  -- The command that a client is told for one of the database: coordinates only where it is to go
  -- to, in the precision of the wire, and an altitude only where it is to change that.
  abbrev pub told : AssetCommand F → CommandMessage F
  told ac = record {
    command = ac.command;
    latitude = fixed F (elim ac.command [ FssAssetCommand.goto ↦ ac.latitude | _ ↦ F.nan ]);
    longitude = fixed F (elim ac.command [ FssAssetCommand.goto ↦ ac.longitude | _ ↦ F.nan ]);
    altitude = elim ac.command [ FssAssetCommand.altitude ↦ ac.altitude | _ ↦ 0 ];
    timestamp = ac.timestamp;
  }

  abbrev pub told_message : ℕ → AssetCommand F → Message F
  told_message n ac = record {
    id = n;
    type = FssMessageType.command;
    body = Body.command (told ac);
  }

  message_carried :
      (x : CommandMessage F) (n : ℕ)
      → n < 2 ^ 64
      → x.timestamp < 2 ^ 64
      → x.altitude < 2 ^ 32
      → CommandInRange x.command
      → carried (set_id (make (Body.command x)) n)
        ≡ some (
            some (record {
              id = n;
              type = FssMessageType.command;
              body = Body.command (command_received F x);
            }))
  unfolding make set_id body_type
  message_carried x n hn ht ha r = decode-get_packed (set_id (make (Body.command x)) n) (record {
    id = hn;
    type = refl;
    in_range = (ht, ha, r);
    size = simp (length-append, length-be) (omega arith);
  })

  -- The command before its coordinates are rounded.
  abbrev exact : AssetCommand F → CommandMessage F
  exact ac = record {
    command = ac.command;
    latitude = elim ac.command [ FssAssetCommand.goto ↦ ac.latitude | _ ↦ F.nan ];
    longitude = elim ac.command [ FssAssetCommand.goto ↦ ac.longitude | _ ↦ F.nan ];
    altitude = elim ac.command [ FssAssetCommand.altitude ↦ ac.altitude | _ ↦ 0 ];
    timestamp = ac.timestamp;
  }

  abbrev command_with : FssAssetCommand → AssetCommand F → AssetCommand F
  command_with cmd ac = record ac { command = cmd }

  exact_lem :
      (cmd : FssAssetCommand) (ac : AssetCommand F)
      → (command_message (command_with cmd ac) ≡ make (Body.command (exact (command_with cmd ac))))
        × (ac.altitude < 2 ^ 32 → (exact (command_with cmd ac)).altitude < 2 ^ 32)
  unfolding command_message plain_command goto_command altitude_command
  exact_lem FssAssetCommand.altitude ac = (refl, λ h. h)
  exact_lem _ ac = (refl, λ h. omega arith)

  command_carried :
      (ac : AssetCommand F) (n : ℕ)
      → n < 2 ^ 64
      → ac.timestamp < 2 ^ 64
      → ac.altitude < 2 ^ 32
      → CommandInRange ac.command
      → carried (set_id (command_message ac) n) ≡ some (some (told_message n ac))
  command_carried ac n hn ht ha r =
      let (e, small) = exact_lem ac.command ac in
      ap (λ (m : Message F). carried (set_id m n)) e
      ∙ message_carried (exact ac) n hn ht (small ha) r

  command_handled :
      (c : FssClient F) (q n : ℕ) (ac : AssetCommand F)
      → ClientProcess.process_message c q (some (told_message n ac))
        ≡ record c { calls = c.calls ++ ClientCall.handle_command (told ac) ∷ [] }
  unfolding ClientProcess.process_message
  command_handled c q n ac = refl

  -- A command of the database that is due for a client of the server, on a usable connection, its
  -- fields being within their widths: the message that the server sends for it is decoded by the
  -- client, and the application is called once, with that command, its time, its coordinates as the
  -- wire rounds them if it is a goto, and its altitude if it is a change of altitude.
  pub command_exchange :
      (db : Database F) (ts : ℕ) (server : ServerFssClient F) (ac : AssetCommand F)
      (c : FssClient F) (q : ℕ)
      → asset_get_command db server.name ≡ some ac
      → command_is_due server ac ts ≡ true
      → ts + 10000 < 2 ^ 64
      → server.conn.usable ≡ true
      → ac.timestamp < 2 ^ 64
      → ac.altitude < 2 ^ 32
      → CommandInRange ac.command
      → let n = (get_message_id server.conn).0 in
        let m = set_id (command_message ac) n in
        ((send_command db ts server).conn.sent ≡ server.conn.sent ++ get_packed m ∷ [])
        × (carried m ≡ some (some (told_message n ac)))
        × (ClientProcess.process_message c q (some (told_message n ac))
            ≡ record c { calls = c.calls ++ ClientCall.handle_command (told ac) ∷ [] })
  command_exchange db ts server ac c q known due small up ht ha r =
      let n = (get_message_id server.conn).0 in
      (
        (send_command_again db server ac ts ts known due small up).0,
        command_carried ac n (get_message_id-lt server.conn) ht ha r,
        command_handled c q n ac,
      )
