-- ===== src/Message/Pack.antt =====
-- `packData` of each subclass, `createHeader`, `updateSize` and `getPacked`.
use flight_safety_system.Base.{
  ℕ, ◌-◌, ◌%◌, ◌^◌, List, [], ◌∷◌, ◌++◌, not, length, drop, replicate, be, ltb, ◌==◌, if◌then◌else◌,
}
use flight_safety_system.Floats.{Floats, to_fixed}
use flight_safety_system.Buffer.{BufLen, add_data, get_length, pack_string}
use flight_safety_system.Message.{
  PositionReport, SystemStatus, SearchStatus, CommandMessage, SmmSettingsMessage, Body, Message,
  type_code, command_code,
}

unfoldable pub header_length : ℕ
header_length = 12

-- `createHeader`: two bytes `'0'` where the length will stand, the type and the id.
unfoldable pub create_header : {F : Floats} → Message F → BufLen → BufLen
unfolding header_length type_code
create_header m bl = add_data bl (48 ∷ 48 ∷ (be 2 (type_code m.type) ++ be 8 m.id)) header_length

unfoldable pub pack_identity : List ℕ → BufLen → BufLen
pack_identity name bl = add_data bl name (length name)

unfoldable pub pack_rtt_response : ℕ → BufLen → BufLen
pack_rtt_response request_id bl = add_data bl (be 8 request_id) 8

unfoldable pub pack_position_report : {F : Floats} → PositionReport F → BufLen → BufLen
pack_position_report {F} p bl =
    let bl = add_data bl (be 8 p.timestamp) 8 in
    let bl = add_data bl (be 4 (to_fixed F p.latitude)) 4 in
    let bl = add_data bl (be 4 (to_fixed F p.longitude)) 4 in
    let bl = add_data bl (be 4 p.altitude) 4 in
    let bl = add_data bl (be 4 p.icao_address) 4 in
    let bl = add_data bl (be 2 p.heading) 2 in
    let bl = add_data bl (be 2 p.horizontal_velocity) 2 in
    let bl = add_data bl (be 2 p.vertical_velocity) 2 in
    let bl = add_data bl (be 2 p.squawk) 2 in
    let bl = pack_string bl p.callsign in
    let bl = add_data bl (be 2 p.flags) 2 in
    let bl = add_data bl (be 1 p.altitude_type) 1 in add_data bl (be 1 p.emitter_type) 1

unfoldable pub pack_system_status : {F : Floats} → SystemStatus F → BufLen → BufLen
pack_system_status {F} s bl =
    let bl = add_data bl (be 1 s.bat_percent) 1 in
    let bl = add_data bl (be 4 s.mah_used) 4 in add_data bl (be 4 (to_fixed F s.voltage)) 4

unfoldable pub pack_search_status : SearchStatus → BufLen → BufLen
pack_search_status s bl =
    let bl = add_data bl (be 8 s.search_id) 8 in
    let bl = add_data bl (be 8 s.point_completed) 8 in add_data bl (be 8 s.points_total) 8

-- `(uint8_t) this->getCommand()` is the last byte.
unfoldable pub pack_command : {F : Floats} → CommandMessage F → BufLen → BufLen
unfolding command_code
pack_command {F} c bl =
    let bl = add_data bl (be 8 c.timestamp) 8 in
    let bl = add_data bl (be 4 (to_fixed F c.latitude)) 4 in
    let bl = add_data bl (be 4 (to_fixed F c.longitude)) 4 in
    let bl = add_data bl (be 4 c.altitude) 4 in
    add_data bl (be 1 (command_code c.command % 2 ^ 8)) 1

unfoldable pub pack_smm_settings : SmmSettingsMessage → BufLen → BufLen
pack_smm_settings s bl =
    let bl = pack_string bl s.server_url in
    let bl = pack_string bl s.username in pack_string bl s.password

unfoldable pub pack_server : BufLen → List ℕ × ℕ → BufLen
pack_server bl (address, port) = pack_string (add_data bl (be 2 port) 2) address

unfoldable pub pack_server_list : List (List ℕ × ℕ) → BufLen → BufLen
unfolding pack_server
pack_server_list [] bl = bl
pack_server_list (server ∷ servers) bl = pack_server_list servers (pack_server bl server)

unfoldable pub pack_identity_non_aircraft : ℕ → BufLen → BufLen
pack_identity_non_aircraft capabilities bl = add_data bl (be 8 capabilities) 8

-- `packData`, by the class of the message.
unfoldable pub pack_data : {F : Floats} → Body F → BufLen → BufLen
pack_data Body.closed bl = bl
pack_data (Body.identity name) bl = pack_identity name bl
pack_data Body.rtt_request bl = bl
pack_data (Body.rtt_response request_id) bl = pack_rtt_response request_id bl
pack_data (Body.position_report p) bl = pack_position_report p bl
pack_data (Body.system_status s) bl = pack_system_status s bl
pack_data (Body.search_status s) bl = pack_search_status s bl
pack_data (Body.command c) bl = pack_command c bl
pack_data (Body.smm_settings s) bl = pack_smm_settings s bl
pack_data (Body.server_list servers) bl = pack_server_list servers bl
pack_data (Body.identity_non_aircraft caps) bl = pack_identity_non_aircraft caps bl
pack_data Body.identity_required bl = bl

-- `updateSize`: pads the buffer to a multiple of 8 bytes, and stores over the first two the
-- length that it had before, as a `uint16_t`.
unfoldable pub update_size : BufLen → BufLen
update_size bl =
    let size = get_length bl % 2 ^ 16 in
    let padded = if not (size % 8 == 0) then add_data bl (replicate 8 0) (8 - size % 8) else bl in
    if ltb 2 size then be 2 size ++ drop 2 padded else bl

unfoldable pub get_packed : {F : Floats} → Message F → BufLen
get_packed m = update_size (pack_data m.body (create_header m []))
