-- ===== src/Db.antt =====
-- `db_connection` of src/db.cpp. What src/server-db.pgc reads from the database is a parameter; what
-- it is told to store is returned as a list.
use flight_safety_system.Base.{
  ℕ, ◌%◌, ◌^◌, List, [], ◌∷◌, Option, none, some, ◌==◌, if◌then◌else◌, ◌>>=◌, Bool, not, map,
  bytes_eq,
}
use flight_safety_system.Floats.{Floats}
use flight_safety_system.Message.{FssAssetCommand}

module _ (F : Floats) where
  -- `struct asset_command_s`.
  pub record AssetCommandRow : Type 0 where
    pub command : List ℕ
    pub timestamp : ℕ
    pub dbid : ℕ
    pub latitude : F.Double
    pub longitude : F.Double
    pub altitude : ℕ

  -- `server::asset_command`.
  pub record AssetCommand : Type 0 where
    pub dbid : ℕ
    pub timestamp : ℕ
    pub command : FssAssetCommand
    pub latitude : F.Double
    pub longitude : F.Double
    pub altitude : ℕ

  pub data DbWrite : Type 0 where
    rtt_entry : ℕ → ℕ → DbWrite
    status_entry : ℕ → ℕ → ℕ → F.Double → DbWrite
    search_status_entry : ℕ → ℕ → ℕ → ℕ → DbWrite
    position_entry : ℕ → F.Double → F.Double → ℕ → DbWrite

-- `server::smm_settings`.
pub record SmmSettings : Type 0 where
  pub address : List ℕ
  pub username : List ℕ
  pub password : List ℕ

-- What the functions of server-db.h answer: `none` for a null pointer, the id 0 for no asset.
pub record Database (F : Floats) : Type 0 where
  pub db_get_asset_id : List ℕ → ℕ
  pub db_asset_command_get : ℕ → Option (AssetCommandRow F)
  pub db_asset_smm_settings_get : ℕ → Option SmmSettings
  pub db_active_fss_servers_get : List (List ℕ × ℕ)

-- The constructor of `asset_command`: which command a text of the database names.
unfoldable pub command_of_text : List ℕ → FssAssetCommand
command_of_text t =
    if bytes_eq t (b'R' ∷ b'T' ∷ b'L' ∷ [])
    then FssAssetCommand.rtl
    else if bytes_eq t (b'H' ∷ b'O' ∷ b'L' ∷ b'D' ∷ [])
    then FssAssetCommand.hold
    else if bytes_eq t (b'G' ∷ b'O' ∷ b'T' ∷ b'O' ∷ [])
    then FssAssetCommand.goto
    else if bytes_eq t (b'R' ∷ b'O' ∷ b'N' ∷ [])
    then FssAssetCommand.resume
    else if bytes_eq t (b'D' ∷ b'I' ∷ b'S' ∷ b'A' ∷ b'R' ∷ b'M' ∷ [])
    then FssAssetCommand.disarm
    else if bytes_eq t (b'A' ∷ b'L' ∷ b'T' ∷ [])
    then FssAssetCommand.altitude
    else if bytes_eq t (b'T' ∷ b'E' ∷ b'R' ∷ b'M' ∷ [])
    then FssAssetCommand.terminate
    else if bytes_eq t (b'M' ∷ b'A' ∷ b'N' ∷ [])
    then FssAssetCommand.manual
    else FssAssetCommand.unknown

module _ {F : Floats} (db : Database F) where
  unfoldable pub check_asset : List ℕ → Bool
  check_asset name = not (db.db_get_asset_id name == 0)

  unfoldable pub asset_add_rtt : List ℕ → ℕ → List (DbWrite F)
  asset_add_rtt name delta =
      let asset_id = db.db_get_asset_id name in
      if not (asset_id == 0) then DbWrite.rtt_entry asset_id delta ∷ [] else []

  unfoldable pub asset_add_status : List ℕ → ℕ → ℕ → F.Double → List (DbWrite F)
  asset_add_status name bat_percent bat_mah_used bat_voltage =
      let asset_id = db.db_get_asset_id name in
      if not (asset_id == 0)
      then DbWrite.status_entry asset_id bat_percent bat_mah_used bat_voltage ∷ []
      else []

  unfoldable pub asset_add_search_status : List ℕ → ℕ → ℕ → ℕ → List (DbWrite F)
  asset_add_search_status name search_id completed total =
      let asset_id = db.db_get_asset_id name in
      if not (asset_id == 0)
      then DbWrite.search_status_entry asset_id search_id completed total ∷ []
      else []

  -- The parameter `altitude` is a `uint16_t`: a caller's `uint32_t` is cut.
  unfoldable pub asset_add_position : List ℕ → F.Double → F.Double → ℕ → List (DbWrite F)
  asset_add_position name latitude longitude altitude =
      let asset_id = db.db_get_asset_id name in
      if not (asset_id == 0)
      then DbWrite.position_entry asset_id latitude longitude (altitude % 2 ^ 16) ∷ []
      else []

  unfoldable pub asset_get_command : List ℕ → Option (AssetCommand F)
  unfolding command_of_text
  asset_get_command name =
      let asset_id = db.db_get_asset_id name in
      if not (asset_id == 0)
      then (do
        row ← db.db_asset_command_get asset_id
        some (record {
          dbid = row.dbid;
          timestamp = row.timestamp;
          command = command_of_text row.command;
          latitude = row.latitude;
          longitude = row.longitude;
          altitude = row.altitude;
        }))
      else none

  unfoldable pub asset_get_smm_settings : List ℕ → Option SmmSettings
  asset_get_smm_settings name =
      let asset_id = db.db_get_asset_id name in
      if not (asset_id == 0) then db.db_asset_smm_settings_get asset_id else none

  -- The port, an `int` of the database, becomes a `uint16_t`.
  unfoldable pub get_active_fss_servers : List (List ℕ × ℕ)
  get_active_fss_servers =
      map (λ (s : List ℕ × ℕ). (s.0, s.1 % 2 ^ 16)) db.db_active_fss_servers_get
