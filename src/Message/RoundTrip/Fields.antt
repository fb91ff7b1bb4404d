-- ===== src/Message/RoundTrip/Fields.antt =====
-- Each `unpackData` of src/transport-messages.cpp on the payload that its `packData` writes.
use flight_safety_system.Base.{
  ℕ, ◌+◌, ◌%◌, ◌^◌, ◌≤◌, ◌<◌, ◌≡◌, refl, sym, ◌≢◌, List, [], ◌∷◌, ◌++◌, some, true, leb, arith,
  length, be, All, le→leb, length-append, length-be, append-nil, subst,
}
use flight_safety_system.Floats.{
  Floats, to_fixed, from_fixed, from_fixed_single, from_fixed_unsigned, to_fixed-lt,
}
use flight_safety_system.Buffer.{BufLen, remaining, align}
use flight_safety_system.Buffer.Cursor.{
  At, At-next, remaining-At, load-At, load_text-At, optional_field-At, optional_text-At,
  packed_string, length-packed_string,
}
use flight_safety_system.Message.{
  FssAssetCommand, PositionReport, SystemStatus, SearchStatus, CommandMessage, SmmSettingsMessage,
  Body, command_code,
}
use flight_safety_system.Message.Unpack.{
  until_nul, unpack_identity, unpack_rtt_response, unpack_position_report, unpack_system_status,
  unpack_search_status, command_of_code, unpack_command, unpack_smm_settings,
  unpack_identity_non_aircraft,
}
use flight_safety_system.Message.Wire.{payload, smm_payload}

-- The numbers are within the widths of their C++ types.
pub record PositionInRange {F : Floats} (p : PositionReport F) : Type 0 where
  pub timestamp : p.timestamp < 2 ^ 64
  pub altitude : p.altitude < 2 ^ 32
  pub icao_address : p.icao_address < 2 ^ 32
  pub heading : p.heading < 2 ^ 16
  pub horizontal_velocity : p.horizontal_velocity < 2 ^ 16
  pub vertical_velocity : p.vertical_velocity < 2 ^ 16
  pub squawk : p.squawk < 2 ^ 16
  pub flags : p.flags < 2 ^ 16
  pub altitude_type : p.altitude_type < 2 ^ 8
  pub emitter_type : p.emitter_type < 2 ^ 8

-- What a receiver gets: the position in millionths of a degree, and no time since last contact.
abbrev pub position_received : (F : Floats) → PositionReport F → PositionReport F
position_received F p = record p {
  latitude = from_fixed F (to_fixed F p.latitude);
  longitude = from_fixed F (to_fixed F p.longitude);
  tslc = 0;
}

module _ {bl : BufLen} (short : length bl < 2 ^ 64) where
  field_At :
      {offset : ℕ} (n v : ℕ) (rest : List ℕ)
      → At bl offset (be n v ++ rest)
      → At bl (offset + n) rest
  field_At n v rest a = At-next (be n v) rest n (sym (length-be n v)) a

  nil_At : {offset : ℕ} {xs : List ℕ} → At bl offset xs → At bl offset (xs ++ [])
  nil_At {offset} {xs} a = subst (At bl offset) (sym (append-nil xs)) a

  text_At :
      {offset : ℕ} (text rest : List ℕ)
      → At bl offset (packed_string offset text ++ rest)
      → At bl (align (offset + 2 + length text)) rest
  text_At {offset} text rest a =
      subst (λ (k : ℕ). At bl k rest) (length-packed_string offset text)
        (At-next (packed_string offset text) rest _ refl a)

  pub unpack_position_report-At :
      (F : Floats) (p : PositionReport F)
      → PositionInRange p
      → length p.callsign < 2 ^ 16
      → At bl 12 (payload (Body.position_report p))
      → unpack_position_report F bl ≡ some (position_received F p)
  unfolding unpack_position_report
  unpack_position_report-At F p r h a =
      let a1 = field_At 8 p.timestamp _ a in
      let a2 = field_At 4 (to_fixed F p.latitude) _ a1 in
      let a3 = field_At 4 (to_fixed F p.longitude) _ a2 in
      let a4 = field_At 4 p.altitude _ a3 in
      let a5 = field_At 4 p.icao_address _ a4 in
      let a6 = field_At 2 p.heading _ a5 in
      let a7 = field_At 2 p.horizontal_velocity _ a6 in
      let a8 = field_At 2 p.vertical_velocity _ a7 in
      let a9 = field_At 2 p.squawk _ a8 in
      let b0 = text_At p.callsign _ a9 in
      let b1 = field_At 2 p.flags _ b0 in
      let b2 = field_At 1 p.altitude_type _ b1 in
      rw (
        optional_field-At 8 p.timestamp _ r.timestamp short a,
        optional_field-At 4 (to_fixed F p.latitude) _ (to_fixed-lt F p.latitude) short a1,
        optional_field-At 4 (to_fixed F p.longitude) _ (to_fixed-lt F p.longitude) short a2,
        optional_field-At 4 p.altitude _ r.altitude short a3,
        optional_field-At 4 p.icao_address _ r.icao_address short a4,
        optional_field-At 2 p.heading _ r.heading short a5,
        optional_field-At 2 p.horizontal_velocity _ r.horizontal_velocity short a6,
        optional_field-At 2 p.vertical_velocity _ r.vertical_velocity short a7,
        optional_field-At 2 p.squawk _ r.squawk short a8,
        optional_text-At p.callsign _ h short a9,
        optional_field-At 2 p.flags _ r.flags short b0,
        optional_field-At 1 p.altitude_type _ r.altitude_type short b1,
        optional_field-At 1 p.emitter_type [] r.emitter_type short (nil_At b2),
      )

-- No byte of the name is NUL, at which `std::string` would end it.
abbrev pub IsCString : List ℕ → Type 0
IsCString = All (λ b. b ≢ 0)

until_nul-eq : (name : List ℕ) → IsCString name → until_nul name ≡ name
unfolding until_nul
until_nul-eq [] h = refl
until_nul-eq (b ∷ bs) (h, hs) = ground (arith, until_nul-eq bs hs)

-- The command is one that the enumeration names, or another value of a byte.
abbrev pub CommandInRange : FssAssetCommand → Type 0
CommandInRange (FssAssetCommand.unlisted n) = (8 < n) × (n < 256)
CommandInRange _ = Unit {0}

command_of_code-command_code :
    (c : FssAssetCommand) → CommandInRange c → command_of_code (command_code c % 2 ^ 8) ≡ c
unfolding command_of_code command_code
command_of_code-command_code (FssAssetCommand.unlisted n) h = ground arith
command_of_code-command_code _ h = refl

abbrev pub system_status_received : (F : Floats) → SystemStatus F → SystemStatus F
system_status_received F s = record s { voltage = from_fixed_unsigned F (to_fixed F s.voltage) }

abbrev pub command_received : (F : Floats) → CommandMessage F → CommandMessage F
command_received F c = record c {
  latitude = from_fixed_single F (to_fixed F c.latitude);
  longitude = from_fixed_single F (to_fixed F c.longitude);
}

module _ {bl : BufLen} (short : length bl < 2 ^ 64) where
  enough_At :
      {offset : ℕ} (n : ℕ) (rest : List ℕ)
      → At bl offset rest
      → n ≤ length rest
      → leb n (remaining bl offset) ≡ true
  enough_At n rest a h = le→leb _ _ (omega (arith, remaining-At rest a short))

  pub unpack_identity-At :
      (name : List ℕ) → IsCString name → At bl 12 name → unpack_identity bl ≡ some name
  unfolding unpack_identity
  unpack_identity-At name h a =
      rw (remaining-At name a short, load_text-At name [] (nil_At short a), until_nul-eq name h)

  pub unpack_rtt_response-At :
      (v : ℕ) → v < 2 ^ 64 → At bl 12 (be 8 v) → unpack_rtt_response bl ≡ some v
  unfolding unpack_rtt_response
  unpack_rtt_response-At v h a =
      rw (enough_At 8 (be 8 v) a (omega (arith, length-be 8 v)), load-At 8 v [] h (nil_At short a))

  pub unpack_identity_non_aircraft-At :
      (v : ℕ) → v < 2 ^ 64 → At bl 12 (be 8 v) → unpack_identity_non_aircraft bl ≡ some v
  unfolding unpack_identity_non_aircraft
  unpack_identity_non_aircraft-At v h a =
      rw (enough_At 8 (be 8 v) a (omega (arith, length-be 8 v)), load-At 8 v [] h (nil_At short a))

  pub unpack_system_status-At :
      (F : Floats) (s : SystemStatus F)
      → s.bat_percent < 2 ^ 8
      → s.mah_used < 2 ^ 32
      → At bl 12 (payload (Body.system_status s))
      → unpack_system_status F bl ≡ some (system_status_received F s)
  unfolding unpack_system_status
  unpack_system_status-At F s hb hm a =
      let a1 = field_At short 1 s.bat_percent _ a in
      let a2 = field_At short 4 s.mah_used _ a1 in
      rw (
        enough_At 5 (payload (Body.system_status s)) a
            (simp (length-append, length-be) (omega arith)),
        load-At 1 s.bat_percent _ hb a,
        load-At 4 s.mah_used _ hm a1,
        optional_field-At 4 (to_fixed F s.voltage) [] (to_fixed-lt F s.voltage) short
            (nil_At short a2),
      )

  pub unpack_search_status-At :
      (s : SearchStatus)
      → s.search_id < 2 ^ 64
      → s.point_completed < 2 ^ 64
      → s.points_total < 2 ^ 64
      → At bl 12 (be 8 s.search_id ++ (be 8 s.point_completed ++ be 8 s.points_total))
      → unpack_search_status bl ≡ some s
  unfolding unpack_search_status
  unpack_search_status-At s hs hc ht a =
      let a1 = field_At short 8 s.search_id _ a in
      let a2 = field_At short 8 s.point_completed _ a1 in
      rw (
        enough_At 24 _ a (simp (length-append, length-be) (omega arith)),
        load-At 8 s.search_id _ hs a,
        load-At 8 s.point_completed _ hc a1,
        load-At 8 s.points_total [] ht (nil_At short a2),
      )

  pub unpack_command-At :
      (F : Floats) (c : CommandMessage F)
      → c.timestamp < 2 ^ 64
      → c.altitude < 2 ^ 32
      → CommandInRange c.command
      → At bl 12 (payload (Body.command c))
      → unpack_command F bl ≡ some (command_received F c)
  unfolding unpack_command
  unpack_command-At F c ht ha hc a =
      let a1 = field_At short 8 c.timestamp _ a in
      let a2 = field_At short 4 (to_fixed F c.latitude) _ a1 in
      let a3 = field_At short 4 (to_fixed F c.longitude) _ a2 in
      let a4 = field_At short 4 c.altitude _ a3 in
      rw (
        enough_At 21 _ a (simp (length-append, length-be) (omega arith)),
        load-At 8 c.timestamp _ ht a,
        load-At 4 (to_fixed F c.latitude) _ (to_fixed-lt F c.latitude) a1,
        load-At 4 (to_fixed F c.longitude) _ (to_fixed-lt F c.longitude) a2,
        load-At 4 c.altitude _ ha a3,
        load-At 1 (command_code c.command % 2 ^ 8) [] (omega arith) (nil_At short a4),
        command_of_code-command_code c.command hc,
      )

  pub unpack_smm_settings-At :
      (s : SmmSettingsMessage)
      → (length s.server_url < 2 ^ 16) × (length s.username < 2 ^ 16) × (length s.password < 2 ^ 16)
      → At bl 12 (smm_payload s)
      → unpack_smm_settings bl ≡ some s
  unfolding unpack_smm_settings
  unpack_smm_settings-At s (hu, hn, hp) a =
      let a1 = text_At short s.server_url _ a in
      let a2 = text_At short s.username _ a1 in
      rw (
        optional_text-At s.server_url _ hu short a,
        optional_text-At s.username _ hn short a1,
        optional_text-At s.password [] hp short (nil_At short a2),
      )
