-- ===== src/Message/Constructors.antt =====
-- The public constructors of src/transport-messages.cpp, with their arguments in their order.
use flight_safety_system.Base.{ℕ, List, [], ◌∷◌, ◌++◌}
use flight_safety_system.Floats.{Floats}
use flight_safety_system.Message.{Message, Body, make}

-- `fss_message_server_list::addServer`.
unfoldable pub add_server : List (List ℕ × ℕ) → List ℕ → ℕ → List (List ℕ × ℕ)
add_server servers server port = servers ++ (server, port) ∷ []

module _ {F : Floats} where
  abbrev pub new_closed : Message F
  new_closed = make Body.closed

  abbrev pub new_identity : List ℕ → Message F
  new_identity t_name = make (Body.identity t_name)

  abbrev pub new_rtt_request : Message F
  new_rtt_request = make Body.rtt_request

  abbrev pub new_rtt_response : ℕ → Message F
  new_rtt_response t_request_id = make (Body.rtt_response t_request_id)

  abbrev pub new_smm_settings : List ℕ → List ℕ → List ℕ → Message F
  new_smm_settings t_server_url t_username t_password = make (
      Body.smm_settings
        (record { server_url = t_server_url; username = t_username; password = t_password }))

  abbrev pub new_identity_required : Message F
  new_identity_required = make Body.identity_required

  unfoldable pub new_system_status : ℕ → ℕ → F.Double → Message F
  unfolding make
  new_system_status bat_remaining_percent bat_mah_used bat_voltage = make (
      Body.system_status (record {
        bat_percent = bat_remaining_percent;
        mah_used = bat_mah_used;
        voltage = bat_voltage;
      }))

  unfoldable pub new_search_status : ℕ → ℕ → ℕ → Message F
  unfolding make
  new_search_status t_search_id last_point_completed total_search_points = make (
      Body.search_status (record {
        search_id = t_search_id;
        point_completed = last_point_completed;
        points_total = total_search_points;
      }))

  unfoldable pub new_position_report :
      F.Double → F.Double → ℕ → ℕ → ℕ → ℕ → ℕ → List ℕ → ℕ → ℕ → ℕ → ℕ → ℕ → ℕ → Message F
  unfolding make
  new_position_report lat lng alt heading hor_vel ver_vel icao callsign squawk tslc flags alt_type
        emitter_type timestamp =
      make (
        Body.position_report (record {
          latitude = lat;
          longitude = lng;
          altitude = alt;
          heading = heading;
          horizontal_velocity = hor_vel;
          vertical_velocity = ver_vel;
          callsign = callsign;
          icao_address = icao;
          squawk = squawk;
          timestamp = timestamp;
          tslc = tslc;
          flags = flags;
          altitude_type = alt_type;
          emitter_type = emitter_type;
        }))
