-- ===== src/Connection.antt =====
-- `fss_connection` of src/transport.cpp and the TLS connection of src/transport-ssl.cpp: the
-- state, the sending of a message, and the queue of received ones.
pub mod Receive
pub mod Send
pub mod Queue
pub mod Race
pub mod Connect
pub mod Names
pub mod Accept
pub mod Plain
pub mod Tls
use flight_safety_system.Base.{
  ℕ, ◌+◌, ◌%◌, ◌^◌, Bool, true, false, List, [], ◌∷◌, ◌++◌, Option, none, some, if◌then◌else◌,
}
use flight_safety_system.Floats.{Floats}
use flight_safety_system.Buffer.{BufLen, is_valid}
use flight_safety_system.Message.{Message, set_id}
use flight_safety_system.Message.Pack.{get_packed}

-- `hostname` is set on the client's side only; `receiving` says whether `recv_thread` was started and
-- not joined. `handler` says whether a callback object is set. `fd` is `none` for -1. `sent` is no field of the
-- class: it lists the buffers that were handed to the TLS session, in order.
pub record Connection (F : Floats) : Type 0 where
  pub fd : Option ℕ
  pub last_msg_id : ℕ
  pub handler : Bool
  pub messages : List (Option (Message F))
  pub usable : Bool
  pub possible_names : List (List ℕ)
  pub hostname : List ℕ
  pub receiving : Bool
  pub sent : List BufLen

-- `getMessageId`: `++last_msg_id` on a `uint64_t`.
unfoldable pub get_message_id : {F : Floats} → Connection F → ℕ × Connection F
get_message_id c =
    let next = (c.last_msg_id + 1) % 2 ^ 64 in (next, record c { last_msg_id = next })

-- `sendSessionMsg`: an unusable session sends nothing. `sent` lists what was handed to the session, in
-- one call each: that the call throws, or takes a part only (as it may of more than a record of TLS,
-- 16 KB), changes neither the result nor, here, `sent`.
unfoldable pub send_session_msg : {F : Floats} → Connection F → BufLen → Connection F × Bool
send_session_msg c bl =
    if c.usable then (record c { sent = c.sent ++ bl ∷ [] }, true) else (c, false)

-- `sendMsg(msg)`: the message is changed, since it gets the id.
unfoldable pub send_msg : {F : Floats} → Connection F → Message F → Connection F × Message F × Bool
unfolding get_message_id send_session_msg
send_msg c m =
    let (next, c') = get_message_id c in
    let m' = set_id m next in
    let bl = get_packed m' in
    let (c'', ret) = if is_valid bl then send_session_msg c' bl else (c', false) in (c'', m', ret)

-- `getMsg`: a null pointer at the front is returned and stays in the queue.
unfoldable pub get_msg : {F : Floats} → Connection F → Option (Message F) × Connection F
get_msg c = if c.handler then (none, c) else elim c.messages [
  | [] ↦ (none, c)
  | none ∷ rest ↦ (none, c)
  | some m ∷ rest ↦ (some m, record c { messages = rest })
]

-- What `processMessages` does with a received message: hand it to the callback, here `process`, or
-- queue it.
unfoldable pub deliver {ℓ} :
    {F : Floats} {S : Type ℓ}
    → (S → Option (Message F) → S)
    → Connection F × S
    → Option (Message F)
    → Connection F × S
deliver process (c, s) msg =
    if c.handler then (c, process s msg) else (record c { messages = c.messages ++ msg ∷ [] }, s)

-- `setHandler` with a callback: it gets the queued messages, oldest first.
unfoldable pub drain {ℓ} :
    {F : Floats} {S : Type ℓ} → (S → Option (Message F) → S) → List (Option (Message F)) → S → S
drain process [] s = s
drain process (msg ∷ rest) s = drain process rest (process s msg)

unfoldable pub set_handler {ℓ} :
    {F : Floats} {S : Type ℓ} → (S → Option (Message F) → S) → Connection F × S → Connection F × S
unfolding drain
set_handler process (c, s) =
    (record c { handler = true; messages = [] }, drain process c.messages s)

-- `setHandler(nullptr)`.
unfoldable pub clear_handler : {F : Floats} → Connection F → Connection F
clear_handler c = record c { handler = false }

-- The constructor that leaves the connection to `connectTo`.
unfoldable pub new_connection : {F : Floats} → Connection F
new_connection = record {
  fd = none;
  last_msg_id = 0;
  handler = false;
  messages = [];
  usable = false;
  possible_names = [];
  hostname = [];
  receiving = false;
  sent = [];
}

-- `disconnect`: the file descriptor is forgotten, then closed, and the thread is joined.
unfoldable pub disconnect : {F : Floats} → Connection F → Connection F
disconnect c = record c { fd = none; receiving = false }

-- The destructors of the TLS connections: `bye` on a usable session, whose exception is caught.
unfoldable pub destroy : {F : Floats} → Connection F → Connection F
unfolding disconnect
destroy c = disconnect (record c { usable = false })

-- The TLS server connection's `getClientNames`.
unfoldable pub get_client_names : {F : Floats} → Connection F → List (List ℕ)
get_client_names c = c.possible_names
