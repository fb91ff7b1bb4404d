-- ===== src/Message.antt =====
-- The messages of src/fss-transport.hpp and src/transport-messages.cpp: their types and fields,
-- the constructors, and the methods that only read. An integer field is a number within the
-- width of its C++ type (a signed one its bit pattern); a text is the list of its bytes.
pub mod Pack
pub mod Unpack
pub mod Decode
pub mod Wire
pub mod Packed
pub mod Valid
pub mod RoundTrip
pub mod Servers
pub mod Capabilities
pub mod Constructors
pub mod Accessors
use flight_safety_system.Base.{ℕ, suc, List, [], ◌∷◌, ◌++◌, Option, none, some}
use flight_safety_system.Floats.{Floats}

pub data FssMessageType : Type 0 where
  unknown closed identity rtt_request rtt_response position_report : FssMessageType
  system_status search_status command server_list smm_settings : FssMessageType
  identity_non_aircraft identity_required : FssMessageType

-- `unlisted` holds a value that no enumerator names.
pub data FssAssetCommand : Type 0 where
  unknown rtl hold goto resume terminate disarm altitude manual : FssAssetCommand
  unlisted : ℕ → FssAssetCommand

module _ (F : Floats) where
  pub record PositionReport : Type 0 where
    pub latitude : F.Double
    pub longitude : F.Double
    pub altitude : ℕ
    pub heading : ℕ
    pub horizontal_velocity : ℕ
    pub vertical_velocity : ℕ
    pub callsign : List ℕ
    pub icao_address : ℕ
    pub squawk : ℕ
    pub timestamp : ℕ
    pub tslc : ℕ
    pub flags : ℕ
    pub altitude_type : ℕ
    pub emitter_type : ℕ

  pub record SystemStatus : Type 0 where
    pub bat_percent : ℕ
    pub mah_used : ℕ
    pub voltage : F.Double

  -- `fss_message_asset_command`.
  pub record CommandMessage : Type 0 where
    pub command : FssAssetCommand
    pub latitude : F.Double
    pub longitude : F.Double
    pub altitude : ℕ
    pub timestamp : ℕ

pub record SearchStatus : Type 0 where
  pub search_id : ℕ
  pub point_completed : ℕ
  pub points_total : ℕ

pub record SmmSettingsMessage : Type 0 where
  pub server_url : List ℕ
  pub username : List ℕ
  pub password : List ℕ

-- The subclasses of `fss_message`, each with its own fields.
pub data Body (F : Floats) : Type 0 where
  closed : Body F
  identity : List ℕ → Body F
  rtt_request : Body F
  rtt_response : ℕ → Body F
  position_report : PositionReport F → Body F
  system_status : SystemStatus F → Body F
  search_status : SearchStatus → Body F
  command : CommandMessage F → Body F
  smm_settings : SmmSettingsMessage → Body F
  server_list : List (List ℕ × ℕ) → Body F
  identity_non_aircraft : ℕ → Body F
  identity_required : Body F

-- `fss_message`: the subclass object with the two fields of the base class.
pub record Message (F : Floats) : Type 0 where
  pub id : ℕ
  pub type : FssMessageType
  pub body : Body F

-- The type that the public constructor of each subclass sets.
unfoldable pub body_type : {F : Floats} → Body F → FssMessageType
body_type Body.closed = FssMessageType.closed
body_type (Body.identity name) = FssMessageType.identity
body_type Body.rtt_request = FssMessageType.rtt_request
body_type (Body.rtt_response request_id) = FssMessageType.rtt_response
body_type (Body.position_report p) = FssMessageType.position_report
body_type (Body.system_status s) = FssMessageType.system_status
body_type (Body.search_status s) = FssMessageType.search_status
body_type (Body.command c) = FssMessageType.command
body_type (Body.smm_settings s) = FssMessageType.smm_settings
body_type (Body.server_list servers) = FssMessageType.server_list
body_type (Body.identity_non_aircraft caps) = FssMessageType.identity_non_aircraft
body_type Body.identity_required = FssMessageType.identity_required

-- `fss_message(t_type)`: what `std::make_shared` of a subclass gives.
unfoldable pub make : {F : Floats} → Body F → Message F
unfolding body_type
make b = record { id = 0; type = body_type b; body = b }

-- `fss_message::setId`.
unfoldable pub set_id : {F : Floats} → Message F → ℕ → Message F
set_id m t_id = record m { id = t_id }

-- The three public constructors of `fss_message_asset_command`.
unfoldable pub plain_command : (F : Floats) → FssAssetCommand → ℕ → CommandMessage F
plain_command F c t = record {
  command = c;
  latitude = F.nan;
  longitude = F.nan;
  altitude = 0;
  timestamp = t;
}

unfoldable pub goto_command :
    (F : Floats) → FssAssetCommand → ℕ → F.Double → F.Double → CommandMessage F
goto_command F c t lat lng = record {
  command = c;
  latitude = lat;
  longitude = lng;
  altitude = 0;
  timestamp = t;
}

unfoldable pub altitude_command : (F : Floats) → FssAssetCommand → ℕ → ℕ → CommandMessage F
altitude_command F c t alt = record {
  command = c;
  latitude = F.nan;
  longitude = F.nan;
  altitude = alt;
  timestamp = t;
}

-- The virtual `getLatitude`, `getLongitude`, `getAltitude` and `getTimeStamp`, with what the base
-- class answers for a subclass that does not override them.
unfoldable pub get_latitude : {F : Floats} → Body F → F.Double
get_latitude (Body.position_report p) = p.latitude
get_latitude (Body.command c) = c.latitude
get_latitude {F} _ = F.nan

unfoldable pub get_longitude : {F : Floats} → Body F → F.Double
get_longitude (Body.position_report p) = p.longitude
get_longitude (Body.command c) = c.longitude
get_longitude {F} _ = F.nan

unfoldable pub get_altitude : {F : Floats} → Body F → ℕ
get_altitude (Body.position_report p) = p.altitude
get_altitude (Body.command c) = c.altitude
get_altitude _ = 0

unfoldable pub get_time_stamp : {F : Floats} → Body F → ℕ
get_time_stamp (Body.position_report p) = p.timestamp
get_time_stamp (Body.command c) = c.timestamp
get_time_stamp _ = 0

-- The numbers of the enumerators.
unfoldable pub type_code : FssMessageType → ℕ
type_code FssMessageType.unknown = 0
type_code FssMessageType.closed = 1
type_code FssMessageType.identity = 2
type_code FssMessageType.rtt_request = 3
type_code FssMessageType.rtt_response = 4
type_code FssMessageType.position_report = 5
type_code FssMessageType.system_status = 6
type_code FssMessageType.search_status = 7
type_code FssMessageType.command = 8
type_code FssMessageType.server_list = 9
type_code FssMessageType.smm_settings = 10
type_code FssMessageType.identity_non_aircraft = 11
type_code FssMessageType.identity_required = 12

unfoldable pub command_code : FssAssetCommand → ℕ
command_code FssAssetCommand.unknown = 0
command_code FssAssetCommand.rtl = 1
command_code FssAssetCommand.hold = 2
command_code FssAssetCommand.goto = 3
command_code FssAssetCommand.resume = 4
command_code FssAssetCommand.terminate = 5
command_code FssAssetCommand.disarm = 6
command_code FssAssetCommand.altitude = 7
command_code FssAssetCommand.manual = 8
command_code (FssAssetCommand.unlisted n) = n
