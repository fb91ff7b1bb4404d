-- ===== src/Message/Packed.antt =====
-- What `packData` and `getPacked` of src/transport-messages.cpp write is the format of `Wire`.
use flight_safety_system.Base.{
  ℕ, suc, ◌+◌, ◌-◌, ◌%◌, ◌^◌, ◌<◌, ◌≡◌, refl, sym, ap, ◌∙◌, List, [], ◌∷◌, ◌++◌, arith, length,
  replicate, be, append-nil, append_assoc, length-append, length-be, All, not, ◌==◌, if◌then◌else◌,
  Bool-cases, inl, inr, lt→ltb,
}
use flight_safety_system.Floats.{Floats}
use flight_safety_system.Buffer.{BufLen, add_data, pack_string, align}
use flight_safety_system.Buffer.Cursor.{
  packed_string, length-packed_string, add_data-all, add_data-be, add_data-zeros, pack_string_lem,
}
use flight_safety_system.Message.{PositionReport, SmmSettingsMessage, Body, Message, type_code}
use flight_safety_system.Message.Pack.{
  pack_identity, pack_rtt_response, pack_position_report, pack_system_status, pack_search_status,
  pack_command, pack_smm_settings, pack_server, pack_server_list, pack_identity_non_aircraft,
  pack_data, create_header, update_size, get_packed,
}
use flight_safety_system.Message.Wire.{
  position_front, servers_payload, smm_payload, payload, FitsText, wire_size, wire, padding,
}

add_one : (bl : BufLen) (v : ℕ) → add_data bl (be 1 v) 1 ≡ bl ++ be 1 v
add_one bl v = add_data-be bl 1 v (omega arith)

add_two : (bl : BufLen) (v : ℕ) → add_data bl (be 2 v) 2 ≡ bl ++ be 2 v
add_two bl v = add_data-be bl 2 v (omega arith)

add_four : (bl : BufLen) (v : ℕ) → add_data bl (be 4 v) 4 ≡ bl ++ be 4 v
add_four bl v = add_data-be bl 4 v (omega arith)

add_eight : (bl : BufLen) (v : ℕ) → add_data bl (be 8 v) 8 ≡ bl ++ be 8 v
add_eight bl v = add_data-be bl 8 v (omega arith)

ruleset adds = (add_one, add_two, add_four, add_eight, append_assoc)

length-position_front : {F : Floats} (p : PositionReport F) → length (position_front p []) ≡ 32
length-position_front p = simp (length-append, length-be)

-- A text packed where the buffer has the given length.
pack_string_at :
    (bl : BufLen) (offset : ℕ) (text : List ℕ)
    → length bl ≡ offset
    → length text < 2 ^ 16
    → pack_string bl text ≡ bl ++ packed_string offset text
pack_string_at bl offset text e h =
    pack_string_lem bl text h ∙ ap (λ (k : ℕ). bl ++ packed_string k text) e

length-with_text :
    (bl : BufLen) (offset : ℕ) (text : List ℕ)
    → length bl ≡ offset
    → length (bl ++ packed_string offset text) ≡ align (offset + 2 + length text)
length-with_text bl offset text e =
    omega (arith, length-append bl (packed_string offset text), length-packed_string offset text)

pack_position_report_lem :
    {F : Floats} (p : PositionReport F) (bl : BufLen)
    → length bl ≡ 12
    → length p.callsign < 2 ^ 16
    → pack_position_report p bl ≡ bl ++ payload (Body.position_report p)
unfolding pack_position_report
pack_position_report_lem {F} p bl e h =
    let e = simp append-nil at (pack_string_at (bl ++ position_front p []) 44 p.callsign size h) in
    simp (adds, e)
  where
    size : length (bl ++ position_front p []) ≡ 44
    size = omega (arith, length-append bl (position_front p []), length-position_front p)

pack_smm_settings_lem :
    (s : SmmSettingsMessage) (bl : BufLen)
    → length bl ≡ 12
    → (length s.server_url < 2 ^ 16) × (length s.username < 2 ^ 16) × (length s.password < 2 ^ 16)
    → pack_smm_settings s bl ≡ bl ++ smm_payload s
unfolding pack_smm_settings
pack_smm_settings_lem s bl e (hu, hn, hp) =
    rw
      (
        pack_string_at bl 12 s.server_url e hu,
        pack_string_at with_url user s.username size hn,
        pack_string_at (with_url ++ packed_string user s.username)
            (align (user + 2 + length s.username)) s.password
            (length-with_text with_url user s.username size) hp,
      )
      (simp append_assoc)
  where
    with_url : BufLen
    with_url = bl ++ packed_string 12 s.server_url

    user : ℕ
    user = align (14 + length s.server_url)

    size : length with_url ≡ user
    size = length-with_text bl 12 s.server_url e

abbrev server_payload : ℕ → List ℕ × ℕ → List ℕ
server_payload offset (address, port) = be 2 port ++ packed_string (offset + 2) address

length-server :
    (bl : BufLen) (offset : ℕ) (server : List ℕ × ℕ)
    → length bl ≡ offset
    → length (bl ++ server_payload offset server) ≡ align (offset + 4 + length server.0)
length-server bl offset (address, port) e =
    ap length (sym (append_assoc bl (be 2 port) (packed_string (offset + 2) address)))
    ∙ length-with_text (bl ++ be 2 port) (offset + 2) address
        (omega (arith, length-append bl (be 2 port), length-be 2 port))
    ∙ ap align (omega arith)

pack_server_lem :
    (server : List ℕ × ℕ) (bl : BufLen) (offset : ℕ)
    → length bl ≡ offset
    → length server.0 < 2 ^ 16
    → pack_server bl server ≡ bl ++ server_payload offset server
unfolding pack_server
pack_server_lem (address, port) bl offset e h = simp (
  adds,
  pack_string_at (bl ++ be 2 port) (offset + 2) address
      (omega (arith, length-append bl (be 2 port), length-be 2 port)) h,
)

pack_server_list_lem :
    (servers : List (List ℕ × ℕ)) (bl : BufLen) (offset : ℕ)
    → length bl ≡ offset
    → All (λ (s : List ℕ × ℕ). length s.0 < 2 ^ 16) servers
    → pack_server_list servers bl ≡ bl ++ servers_payload offset servers
unfolding pack_server_list
pack_server_list_lem [] bl offset e h = sym (append-nil bl)
pack_server_list_lem ((address, port) ∷ servers) bl offset e (h, hs) = simp (
  pack_server_lem (address, port) bl offset e h,
  pack_server_list_lem servers (bl ++ server_payload offset (address, port)) _
      (length-server bl offset (address, port) e) hs,
  append_assoc,
)

-- `packData` appends the payload.
pack_data-payload :
    {F : Floats} (b : Body F) (bl : BufLen)
    → length bl ≡ 12
    → FitsText b
    → pack_data b bl ≡ bl ++ payload b
unfolding pack_data pack_identity pack_rtt_response pack_system_status pack_search_status
    pack_command pack_identity_non_aircraft
pack_data-payload Body.closed bl e h = sym (append-nil bl)
pack_data-payload (Body.identity name) bl e h = add_data-all bl name _ refl h
pack_data-payload Body.rtt_request bl e h = sym (append-nil bl)
pack_data-payload (Body.rtt_response request_id) bl e h = simp adds
pack_data-payload (Body.position_report p) bl e h = pack_position_report_lem p bl e h
pack_data-payload (Body.system_status s) bl e h = simp adds
pack_data-payload (Body.search_status s) bl e h = simp adds
pack_data-payload (Body.command c) bl e h = simp adds
pack_data-payload (Body.smm_settings s) bl e h = pack_smm_settings_lem s bl e h
pack_data-payload (Body.server_list servers) bl e h = pack_server_list_lem servers bl 12 e h
pack_data-payload (Body.identity_non_aircraft caps) bl e h = simp adds
pack_data-payload Body.identity_required bl e h = sym (append-nil bl)

abbrev header_of : {F : Floats} → Message F → List ℕ
header_of m = 48 ∷ 48 ∷ (be 2 (type_code m.type) ++ be 8 m.id)

length-header_of : {F : Floats} (m : Message F) → length (header_of m) ≡ 12
length-header_of m = simp (length-append, length-be)

create_header_lem : {F : Floats} (m : Message F) → create_header m [] ≡ header_of m
unfolding create_header
create_header_lem m = add_data-all [] (header_of m) 12 (sym (length-header_of m)) (omega arith)

pad_lem :
    (bl : BufLen) (n : ℕ)
    → (if not (n % 8 == 0) then add_data bl (replicate 8 0) (8 - n % 8) else bl) ≡ bl ++ padding n
pad_lem bl n = elim (Bool-cases (n % 8 == 0)) [
  | inl e ↦ rw e (sym (ap (λ (k : ℕ). bl ++ replicate k 0) {y = 0} (ground arith) ∙ append-nil bl))
  | inr e ↦ rw e (
      add_data-zeros bl (8 - n % 8) (omega arith)
      ∙ ap (λ (k : ℕ). bl ++ replicate k 0) (ground arith))
]

-- `updateSize` on a buffer whose length fits.
update_size_lem :
    (a b : ℕ) (rest : List ℕ)
    → 0 < length rest
    → 2 + length rest < 2 ^ 16
    → update_size (a ∷ b ∷ rest) ≡ be 2 (2 + length rest) ++ (rest ++ padding (2 + length rest))
unfolding update_size
update_size_lem a b rest pos h =
    let n = 2 + length rest in
    let e : suc (suc (length rest)) % 2 ^ 16 ≡ n = omega arith in
    rw (e, pad_lem (a ∷ b ∷ rest) n, lt→ltb 2 n (omega arith))

-- `getPacked` writes the message in the wire format, padded with zero bytes to a multiple of 8.
pub get_packed-wire :
    {F : Floats} (m : Message F)
    → FitsText m.body
    → wire_size m.body < 2 ^ 16
    → get_packed m ≡ wire m ++ padding (wire_size m.body)
unfolding get_packed
get_packed-wire m h size =
    let rest = be 2 (type_code m.type) ++ be 8 m.id ++ payload m.body in
    let e : 2 + length rest ≡ wire_size m.body =
      omega (arith, length-append (header_of m) (payload m.body), length-header_of m) in
    ap update_size (
      ap (pack_data m.body) (create_header_lem m)
      ∙ pack_data-payload m.body (header_of m) (length-header_of m) h)
    ∙ update_size_lem 48 48 rest (omega arith) (omega arith)
    ∙ ap (λ (k : ℕ). be 2 k ++ (rest ++ padding k)) e
    ∙ simp append_assoc
