-- ===== src/Message/Valid.antt =====
-- `isValid` of what `getPacked` of src/transport-messages.cpp builds.
use flight_safety_system.Base.{ℕ, ◌≡◌, List, [], ◌∷◌, true, arith, be}
use flight_safety_system.Floats.{Floats}
use flight_safety_system.Buffer.{BufLen, add_data, pack_string, is_valid}
use flight_safety_system.Message.{Body, Message}
use flight_safety_system.Message.Pack.{
  pack_server_list, pack_identity, pack_rtt_response, pack_position_report, pack_system_status,
  pack_search_status, pack_command, pack_smm_settings, pack_identity_non_aircraft, pack_data,
  create_header, update_size, get_packed,
}

pack_server_list-is_valid :
    (servers : List (List ℕ × ℕ)) (a : ℕ) (rest : BufLen)
    → is_valid (pack_server_list servers (a ∷ rest)) ≡ true
unfolding pack_server_list is_valid pack_string add_data
pack_server_list-is_valid [] a rest = ground arith
pack_server_list-is_valid (server ∷ servers) a rest = pack_server_list-is_valid servers a _

pack_data-is_valid :
    {F : Floats} (b : Body F) (a : ℕ) (rest : BufLen) → is_valid (pack_data b (a ∷ rest)) ≡ true
unfolding pack_data pack_identity pack_rtt_response pack_position_report pack_system_status
    pack_search_status pack_command pack_smm_settings pack_identity_non_aircraft is_valid
    pack_string add_data
pack_data-is_valid (Body.server_list servers) a rest = pack_server_list-is_valid servers a rest
pack_data-is_valid _ a rest = ground arith

update_size-is_valid : (bl : BufLen) → is_valid bl ≡ true → is_valid (update_size bl) ≡ true
unfolding update_size is_valid be
update_size-is_valid bl h = ground arith

-- What `getPacked` builds is never empty, whatever the message.
pub get_packed-is_valid : {F : Floats} (m : Message F) → is_valid (get_packed m) ≡ true
unfolding get_packed create_header add_data
get_packed-is_valid m = update_size-is_valid _ (pack_data-is_valid m.body _ _)
