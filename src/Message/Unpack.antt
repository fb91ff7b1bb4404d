-- ===== src/Message/Unpack.antt =====
-- `unpackData` of each subclass of `fss_message` in src/transport-messages.cpp. `none` is a read outside the buffer.
use flight_safety_system.Base.{
  ℕ, zero, suc, ◌+◌, true, false, List, [], ◌∷◌, Option, none, some, leb, ◌==◌, if◌then◌else◌,
  ◌>>=◌,
}
use mathlib.Core.Option.{get_or}
use flight_safety_system.Floats.{Floats, from_fixed, from_fixed_single, from_fixed_unsigned}
use flight_safety_system.Buffer.{
  BufLen, get_length, load, load_text, remaining, align, optional_field, optional_text,
}
use flight_safety_system.Message.{
  FssAssetCommand, PositionReport, SystemStatus, SearchStatus, CommandMessage, SmmSettingsMessage,
}

-- `std::string(name_n)`: the bytes before the first NUL.
unfoldable pub until_nul : List ℕ → List ℕ
until_nul [] = []
until_nul (b ∷ bs) = if b == 0 then [] else b ∷ until_nul bs

-- The copy takes `length - offset` bytes, which wraps if the buffer is shorter than the header.
unfoldable pub unpack_identity : BufLen → Option (List ℕ)
unfolding until_nul
unpack_identity bl = do name_n ← load_text bl 12 (remaining bl 12); some (until_nul name_n)

unfoldable pub unpack_rtt_response : BufLen → Option ℕ
unpack_rtt_response bl = if leb 8 (remaining bl 12) then load 8 bl 12 else some 0

unfoldable pub unpack_position_report : (F : Floats) → BufLen → Option (PositionReport F)
unpack_position_report F bl = do
  (ts, offset) ← optional_field 8 bl 12
  (lat, offset) ← optional_field 4 bl offset
  (lng, offset) ← optional_field 4 bl offset
  (alt, offset) ← optional_field 4 bl offset
  (icao, offset) ← optional_field 4 bl offset
  (head, offset) ← optional_field 2 bl offset
  (hor_vel, offset) ← optional_field 2 bl offset
  (ver_vel, offset) ← optional_field 2 bl offset
  (squawk_code, offset) ← optional_field 2 bl offset
  (sign, offset) ← optional_text bl offset
  (enc_flags, offset) ← optional_field 2 bl offset
  (alt_type, offset) ← optional_field 1 bl offset
  (emitter, offset) ← optional_field 1 bl offset
  some (record {
    latitude = elim lat [ none ↦ F.nan | some p ↦ from_fixed F p ];
    longitude = elim lng [ none ↦ F.nan | some p ↦ from_fixed F p ];
    altitude = get_or alt 0;
    heading = get_or head 0;
    horizontal_velocity = get_or hor_vel 0;
    vertical_velocity = get_or ver_vel 0;
    callsign = get_or sign [];
    icao_address = get_or icao 0;
    squawk = get_or squawk_code 0;
    timestamp = get_or ts 0;
    tslc = 0;
    flags = get_or enc_flags 0;
    altitude_type = get_or alt_type 0;
    emitter_type = get_or emitter 0;
  })

-- The percentage and the charge are read together; the offset moves behind them only then.
unfoldable pub unpack_battery : BufLen → Option (ℕ × ℕ × ℕ)
unpack_battery bl =
    if leb 5 (remaining bl 12)
    then (do bat_percent ← load 1 bl 12; mah_used ← load 4 bl 13; some (bat_percent, mah_used, 17))
    else some (0, 0, 12)

unfoldable pub unpack_system_status : (F : Floats) → BufLen → Option (SystemStatus F)
unfolding unpack_battery
unpack_system_status F bl = do
  (bat, mah, offset) ← unpack_battery bl
  (voltage_n, offset) ← optional_field 4 bl offset
  some (record {
    bat_percent = bat;
    mah_used = mah;
    voltage = elim voltage_n [ none ↦ F.zero_double | some v ↦ from_fixed_unsigned F v ];
  })

unfoldable pub unpack_search_status : BufLen → Option SearchStatus
unpack_search_status bl =
    if leb 24 (remaining bl 12)
    then (do
      search ← load 8 bl 12
      completed ← load 8 bl 20
      total ← load 8 bl 28
      some (record { search_id = search; point_completed = completed; points_total = total }))
    else some (record { search_id = 0; point_completed = 0; points_total = 0 })

-- `(fss_asset_command)` of a byte.
unfoldable pub command_of_code : ℕ → FssAssetCommand
command_of_code c =
    if c == 0
    then FssAssetCommand.unknown
    else if c == 1
    then FssAssetCommand.rtl
    else if c == 2
    then FssAssetCommand.hold
    else if c == 3
    then FssAssetCommand.goto
    else if c == 4
    then FssAssetCommand.resume
    else if c == 5
    then FssAssetCommand.terminate
    else if c == 6
    then FssAssetCommand.disarm
    else if c == 7
    then FssAssetCommand.altitude
    else if c == 8
    then FssAssetCommand.manual
    else FssAssetCommand.unlisted c

unfoldable pub unpack_command : (F : Floats) → BufLen → Option (CommandMessage F)
unfolding command_of_code
unpack_command F bl =
    if leb 21 (remaining bl 12)
    then (do
      ts ← load 8 bl 12
      lat ← load 4 bl 20
      lng ← load 4 bl 24
      alt ← load 4 bl 28
      cmd ← load 1 bl 32
      some (record {
        command = command_of_code cmd;
        latitude = from_fixed_single F lat;
        longitude = from_fixed_single F lng;
        altitude = alt;
        timestamp = ts;
      }))
    else some (record {
      command = FssAssetCommand.unknown;
      latitude = from_fixed_single F 0;
      longitude = from_fixed_single F 0;
      altitude = 0;
      timestamp = 0;
    })

-- The third text has no alignment behind it, but no read either.
unfoldable pub unpack_smm_settings : BufLen → Option SmmSettingsMessage
unpack_smm_settings bl = do
  (url, offset) ← optional_text bl 12
  (user, offset) ← optional_text bl offset
  (pass, offset) ← optional_text bl offset
  some (record { server_url = get_or url []; username = get_or user []; password = get_or pass [] })

-- How the loop of `unpackData` ends. `stuck` is no C++ outcome: the fuel ran out.
pub data Scan : Type 0 where
  done : List (List ℕ × ℕ) → Scan
  fault stuck : Scan

-- One round of the loop: the server read and the offset behind it.
unfoldable pub unpack_server : BufLen → ℕ → Option ((List ℕ × ℕ) × ℕ)
unpack_server bl offset = do
  port ← load 2 bl offset
  len ← load 2 bl (offset + 2)
  server_addr ← load_text bl (offset + 4) len
  some ((server_addr, port), align (offset + 4 + len))

abbrev pub cons_scan : List ℕ × ℕ → Scan → Scan
cons_scan server (Scan.done servers) = Scan.done (server ∷ servers)
cons_scan server Scan.fault = Scan.fault
cons_scan server Scan.stuck = Scan.stuck

unfoldable pub unpack_servers : ℕ → BufLen → ℕ → Scan
unpack_servers zero bl offset = Scan.stuck
unpack_servers (suc fuel) bl offset = elim (leb 4 (remaining bl offset)) [
  | false ↦ Scan.done []
  | true ↦ elim (unpack_server bl offset) [
    | none ↦ Scan.fault
    | some (server, next) ↦ cons_scan server (unpack_servers fuel bl next)
  ]
]

-- Each round moves the offset, and no round reads behind the end: see `Message.Servers`.
unfoldable pub unpack_server_list : BufLen → Option (List (List ℕ × ℕ))
unfolding unpack_servers
unpack_server_list bl = elim (unpack_servers (get_length bl + 2) bl 12) [
  | Scan.done servers ↦ some servers
  | Scan.fault ↦ none
  | Scan.stuck ↦ none
]

unfoldable pub unpack_identity_non_aircraft : BufLen → Option ℕ
unpack_identity_non_aircraft bl = if leb 8 (remaining bl 12) then load 8 bl 12 else some 0
