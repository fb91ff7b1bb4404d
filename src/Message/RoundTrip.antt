-- ===== src/Message/RoundTrip.antt =====
-- `getPacked` and `decode` of src/transport-messages.cpp against one another.
pub mod Fields
pub mod Fits
use flight_safety_system.Base.{
  ℕ, suc, ◌+◌, ◌%◌, ◌^◌, ◌≤◌, ◌<◌, ◌≡◌, refl, sym, ap, subst, ◌∙◌, ◌≢◌, List, [], ◌∷◌, ◌++◌, Option,
  none, some, arith, length, be, take, take-eq, All, length-append, length-be, append_assoc,
}
use mathlib.Core.Option
use flight_safety_system.Floats.{Floats}
use flight_safety_system.Buffer.{BufLen}
use flight_safety_system.Buffer.Cursor.{At, At-start, At-next, load-At}
use flight_safety_system.Message.{FssMessageType, Body, Message, type_code, body_type}
use flight_safety_system.Message.Pack.{get_packed}
use flight_safety_system.Message.Wire.{payload, FitsText, wire_size, wire, padding}
use flight_safety_system.Message.Packed.{get_packed-wire}
use flight_safety_system.Message.Decode.{type_of_code, decoded, decode_body, decode}
use flight_safety_system.Message.Servers.{unpack_server_list-At}
use Fields.{
  IsCString, PositionInRange, position_received, system_status_received, command_received,
  CommandInRange, unpack_identity-At, unpack_rtt_response-At, unpack_identity_non_aircraft-At,
  unpack_system_status-At, unpack_search_status-At, unpack_command-At, unpack_smm_settings-At,
  unpack_position_report-At,
}
use Fits.{FitsText-wire_size}

-- The fields hold values of their C++ types, and a name holds no NUL.
abbrev pub InRange : {F : Floats} → Body F → Type 0
InRange (Body.identity name) = IsCString name
InRange (Body.rtt_response request_id) = request_id < 2 ^ 64
InRange (Body.position_report p) = PositionInRange p
InRange (Body.system_status s) = (s.bat_percent < 2 ^ 8) × (s.mah_used < 2 ^ 32)
InRange (Body.search_status s) =
    (s.search_id < 2 ^ 64) × (s.point_completed < 2 ^ 64) × (s.points_total < 2 ^ 64)
InRange (Body.command c) = (c.timestamp < 2 ^ 64) × (c.altitude < 2 ^ 32) × CommandInRange c.command
InRange (Body.server_list servers) = All (λ (s : List ℕ × ℕ). s.1 < 2 ^ 16) servers
InRange (Body.identity_non_aircraft caps) = caps < 2 ^ 64
InRange _ = Unit {0}

-- A message as its public constructor and `setId` leave it, whose length fits the two bytes.
pub record Sendable {F : Floats} (m : Message F) : Type 0 where
  pub id : m.id < 2 ^ 64
  pub type : m.type ≡ body_type m.body
  pub in_range : InRange m.body
  pub size : wire_size m.body < 2 ^ 16

-- What the receiver makes of a message. The fixed-point fields are rounded, the time since last
-- contact is lost, and `message_type_closed` is no message.
abbrev pub received_body : {F : Floats} → Body F → Option (Body F)
received_body Body.closed = none
received_body {F} (Body.position_report p) = some (Body.position_report (position_received F p))
received_body {F} (Body.system_status s) = some (Body.system_status (system_status_received F s))
received_body {F} (Body.command c) = some (Body.command (command_received F c))
received_body (Body.identity name) = some (Body.identity name)
received_body Body.rtt_request = some Body.rtt_request
received_body (Body.rtt_response request_id) = some (Body.rtt_response request_id)
received_body (Body.search_status s) = some (Body.search_status s)
received_body (Body.smm_settings s) = some (Body.smm_settings s)
received_body (Body.server_list servers) = some (Body.server_list servers)
received_body (Body.identity_non_aircraft caps) = some (Body.identity_non_aircraft caps)
received_body Body.identity_required = some Body.identity_required

-- A decoded `fss_message_identity_required` has the type of an identity.
abbrev pub received_type : {F : Floats} → Body F → FssMessageType
received_type Body.identity_required = FssMessageType.identity
received_type b = body_type b

abbrev pub received : {F : Floats} → ℕ → Body F → Option (Message F)
received msg_id b =
    Option.map (λ b'. record { id = msg_id; type = received_type b; body = b' }) (received_body b)

type_of_code-type_code : (t : FssMessageType) → type_of_code (type_code t) ≡ t
unfolding type_of_code type_code
type_of_code-type_code FssMessageType.unknown = refl
type_of_code-type_code _ = refl

decode_body-At :
    {F : Floats} (b : Body F) (msg_id : ℕ) {bl : BufLen}
    → length bl < 2 ^ 64
    → InRange b
    → FitsText b
    → At bl 12 (payload b)
    → decode_body F (body_type b) msg_id bl ≡ some (received msg_id b)
unfolding decode_body body_type
decode_body-At Body.closed msg_id short r h a = refl
decode_body-At (Body.identity name) msg_id short r h a = rw (unpack_identity-At short name r a)
decode_body-At Body.rtt_request msg_id short r h a = refl
decode_body-At (Body.rtt_response v) msg_id short r h a = rw (unpack_rtt_response-At short v r a)
decode_body-At {F} (Body.position_report p) msg_id short r h a =
    rw (unpack_position_report-At short F p r h a)
decode_body-At {F} (Body.system_status s) msg_id short r h a =
    rw (unpack_system_status-At short F s r.0 r.1 a)
decode_body-At (Body.search_status s) msg_id short r h a =
    rw (unpack_search_status-At short s r.0 r.1 r.2 a)
decode_body-At {F} (Body.command c) msg_id short r h a =
    rw (unpack_command-At short F c r.0 r.1 r.2 a)
decode_body-At (Body.smm_settings s) msg_id short r h a = rw (unpack_smm_settings-At short s h a)
decode_body-At (Body.server_list servers) msg_id short r h a =
    rw (unpack_server_list-At short servers h r a)
decode_body-At (Body.identity_non_aircraft caps) msg_id short r h a =
    rw (unpack_identity_non_aircraft-At short caps r a)
decode_body-At Body.identity_required msg_id short r h a = refl

pub length-wire : {F : Floats} (m : Message F) → length (wire m) ≡ wire_size m.body
length-wire m = simp (length-append, length-be) (omega arith)

type_code-lt : (t : FssMessageType) → type_code t < 2 ^ 16
unfolding type_code
type_code-lt FssMessageType.unknown = omega arith
type_code-lt _ = omega arith

-- `decode` of a message on the wire is the message, as the receiver gets to see it.
pub decode-wire :
    {F : Floats} (m : Message F) → Sendable m → decode F (wire m) ≡ some (received m.id m.body)
unfolding decode
decode-wire {F} m s =
    let size = wire_size m.body in
    let rest = be 8 m.id ++ payload m.body in
    let at2 =
      subst (λ (k : ℕ). At (wire m) k (be 2 (type_code m.type) ++ rest)) (length-be 2 size)
        (At-start (be 2 size) (be 2 (type_code m.type) ++ rest)) in
    let at4 = At-next (be 2 (type_code m.type)) rest 2 (sym (length-be 2 _)) at2 in
    let at12 = At-next (be 8 m.id) (payload m.body) 8 (sym (length-be 8 _)) at4 in
    rw
      (
        load-At 2 (type_code m.type) rest (type_code-lt m.type) at2,
        load-At 8 m.id (payload m.body) s.id at4,
      )
      (ap (λ (t : FssMessageType). decode_body F t m.id (wire m))
          (type_of_code-type_code m.type ∙ s.type)
        ∙ decode_body-At m.body m.id (omega (arith, length-wire m, s.size)) s.in_range
            (FitsText-wire_size m.body s.size) at12)

-- What `getPacked` builds for a message whose fields are within their widths, which has the type of
-- its class, a name without NUL and a size below 2 ^ 16, cut to the length in its first two bytes (as
-- `recvMsg` cuts it), decodes to that message as the receiver gets it: its id and fields, with the
-- fixed-point fields rounded and no time since last contact. A closed message decodes to none, and an
-- `identity_required` to one with the type of an identity.
pub decode-get_packed :
    {F : Floats} (m : Message F)
    → Sendable m
    → decode F (take (wire_size m.body) (get_packed m)) ≡ some (received m.id m.body)
decode-get_packed {F} m s =
    ap (λ (bl : BufLen). decode F bl)
      (ap (take (wire_size m.body)) (get_packed-wire m (FitsText-wire_size m.body s.size) s.size)
        ∙ take-eq _ (wire m) (padding (wire_size m.body)) (sym (length-wire m)))
    ∙ decode-wire m s
