-- ===== src/Message/Accessors.antt =====
-- The accessors of the messages of src/transport-messages.cpp that read one field each.
use flight_safety_system.Base.{ℕ, List}
use flight_safety_system.Floats.{Floats}
use flight_safety_system.Message.{
  FssAssetCommand, PositionReport, SystemStatus, SearchStatus, CommandMessage, SmmSettingsMessage,
}

abbrev pub get_search_id : SearchStatus → ℕ
get_search_id s = s.search_id

abbrev pub get_search_completed : SearchStatus → ℕ
get_search_completed s = s.point_completed

abbrev pub get_search_total : SearchStatus → ℕ
get_search_total s = s.points_total

abbrev pub get_server_url : SmmSettingsMessage → List ℕ
get_server_url s = s.server_url

abbrev pub get_username : SmmSettingsMessage → List ℕ
get_username s = s.username

abbrev pub get_password : SmmSettingsMessage → List ℕ
get_password s = s.password

module _ {F : Floats} where
  abbrev pub get_icao_address : PositionReport F → ℕ
  get_icao_address p = p.icao_address

  abbrev pub get_heading : PositionReport F → ℕ
  get_heading p = p.heading

  abbrev pub get_horz_vel : PositionReport F → ℕ
  get_horz_vel p = p.horizontal_velocity

  abbrev pub get_vert_vel : PositionReport F → ℕ
  get_vert_vel p = p.vertical_velocity

  abbrev pub get_call_sign : PositionReport F → List ℕ
  get_call_sign p = p.callsign

  abbrev pub get_squawk : PositionReport F → ℕ
  get_squawk p = p.squawk

  abbrev pub get_tslc : PositionReport F → ℕ
  get_tslc p = p.tslc

  abbrev pub get_flags : PositionReport F → ℕ
  get_flags p = p.flags

  abbrev pub get_altitude_type : PositionReport F → ℕ
  get_altitude_type p = p.altitude_type

  abbrev pub get_emitter_type : PositionReport F → ℕ
  get_emitter_type p = p.emitter_type

  abbrev pub get_bat_remaining : SystemStatus F → ℕ
  get_bat_remaining s = s.bat_percent

  abbrev pub get_bat_mah_used : SystemStatus F → ℕ
  get_bat_mah_used s = s.mah_used

  abbrev pub get_bat_voltage : SystemStatus F → F.Double
  get_bat_voltage s = s.voltage

  abbrev pub get_command : CommandMessage F → FssAssetCommand
  get_command c = c.command
