-- ===== src/Message/Decode.antt =====
-- `fss_message::decode` of src/transport-messages.cpp.
use flight_safety_system.Base.{ℕ, Option, none, some, ◌==◌, if◌then◌else◌, ◌>>=◌}
use flight_safety_system.Floats.{Floats}
use flight_safety_system.Buffer.{BufLen, load}
use flight_safety_system.Message.{FssMessageType, Body, Message}
use flight_safety_system.Message.Unpack.{
  unpack_identity, unpack_rtt_response, unpack_position_report, unpack_system_status,
  unpack_search_status, unpack_command, unpack_smm_settings, unpack_server_list,
  unpack_identity_non_aircraft,
}

-- `(fss_message_type)` of the number on the wire. No case of the switch takes a number that has
-- no enumerator, as none takes `message_type_unknown`.
unfoldable pub type_of_code : ℕ → FssMessageType
type_of_code c =
    if c == 1
    then FssMessageType.closed
    else if c == 2
    then FssMessageType.identity
    else if c == 3
    then FssMessageType.rtt_request
    else if c == 4
    then FssMessageType.rtt_response
    else if c == 5
    then FssMessageType.position_report
    else if c == 6
    then FssMessageType.system_status
    else if c == 7
    then FssMessageType.search_status
    else if c == 8
    then FssMessageType.command
    else if c == 9
    then FssMessageType.server_list
    else if c == 10
    then FssMessageType.smm_settings
    else if c == 11
    then FssMessageType.identity_non_aircraft
    else if c == 12
    then FssMessageType.identity_required
    else FssMessageType.unknown

-- The constructors that take an id and a buffer; the type is the one that each passes on.
unfoldable pub decoded : {F : Floats} → ℕ → FssMessageType → Body F → Option (Option (Message F))
decoded msg_id t b = some (some (record { id = msg_id; type = t; body = b }))

-- The constructors from an id and a buffer, which unpack it; the outer `none` is a read outside it.
module _ (F : Floats) (msg_id : ℕ) (bl : BufLen) where
  abbrev pub identity_of_buffer : Option (Option (Message F))
  identity_of_buffer = do
    name ← unpack_identity bl
    decoded msg_id FssMessageType.identity (Body.identity name)

  abbrev pub rtt_response_of_buffer : Option (Option (Message F))
  rtt_response_of_buffer = do
    request_id ← unpack_rtt_response bl
    decoded msg_id FssMessageType.rtt_response (Body.rtt_response request_id)

  abbrev pub position_report_of_buffer : Option (Option (Message F))
  position_report_of_buffer = do
    p ← unpack_position_report F bl
    decoded msg_id FssMessageType.position_report (Body.position_report p)

  abbrev pub system_status_of_buffer : Option (Option (Message F))
  system_status_of_buffer = do
    s ← unpack_system_status F bl
    decoded msg_id FssMessageType.system_status (Body.system_status s)

  abbrev pub search_status_of_buffer : Option (Option (Message F))
  search_status_of_buffer = do
    s ← unpack_search_status bl
    decoded msg_id FssMessageType.search_status (Body.search_status s)

  abbrev pub command_of_buffer : Option (Option (Message F))
  command_of_buffer = do
    c ← unpack_command F bl
    decoded msg_id FssMessageType.command (Body.command c)

  abbrev pub smm_settings_of_buffer : Option (Option (Message F))
  smm_settings_of_buffer = do
    s ← unpack_smm_settings bl
    decoded msg_id FssMessageType.smm_settings (Body.smm_settings s)

  abbrev pub server_list_of_buffer : Option (Option (Message F))
  server_list_of_buffer = do
    servers ← unpack_server_list bl
    decoded msg_id FssMessageType.server_list (Body.server_list servers)

  abbrev pub identity_non_aircraft_of_buffer : Option (Option (Message F))
  identity_non_aircraft_of_buffer = do
    caps ← unpack_identity_non_aircraft bl
    decoded msg_id FssMessageType.identity_non_aircraft (Body.identity_non_aircraft caps)

  abbrev pub rtt_request_of_buffer : Option (Option (Message F))
  rtt_request_of_buffer = decoded msg_id FssMessageType.rtt_request Body.rtt_request

  abbrev pub identity_required_of_buffer : Option (Option (Message F))
  identity_required_of_buffer = decoded msg_id FssMessageType.identity Body.identity_required

-- The inner `none` is a null pointer.
unfoldable pub decode_body :
    (F : Floats) → FssMessageType → ℕ → BufLen → Option (Option (Message F))
unfolding decoded
decode_body F FssMessageType.unknown msg_id bl = some none
decode_body F FssMessageType.closed msg_id bl = some none
decode_body F FssMessageType.identity msg_id bl = identity_of_buffer F msg_id bl
decode_body F FssMessageType.rtt_request msg_id bl = rtt_request_of_buffer F msg_id bl
decode_body F FssMessageType.rtt_response msg_id bl = rtt_response_of_buffer F msg_id bl
decode_body F FssMessageType.position_report msg_id bl = position_report_of_buffer F msg_id bl
decode_body F FssMessageType.system_status msg_id bl = system_status_of_buffer F msg_id bl
decode_body F FssMessageType.search_status msg_id bl = search_status_of_buffer F msg_id bl
decode_body F FssMessageType.command msg_id bl = command_of_buffer F msg_id bl
decode_body F FssMessageType.server_list msg_id bl = server_list_of_buffer F msg_id bl
decode_body F FssMessageType.smm_settings msg_id bl = smm_settings_of_buffer F msg_id bl
decode_body F FssMessageType.identity_non_aircraft msg_id bl =
    identity_non_aircraft_of_buffer F msg_id bl
decode_body F FssMessageType.identity_required msg_id bl = identity_required_of_buffer F msg_id bl

unfoldable pub decode : (F : Floats) → BufLen → Option (Option (Message F))
unfolding type_of_code decode_body
decode F bl = do
  type ← load 2 bl 2
  msg_id ← load 8 bl 4
  decode_body F (type_of_code type) msg_id bl
