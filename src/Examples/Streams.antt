-- ===== src/Examples/Streams.antt =====
-- Connections on concrete replies of the socket.
use flight_safety_system.Base.{
  ℕ, ◌+◌, ◌-◌, ◌<◌, ◌≡◌, refl, true, false, List, [], ◌∷◌, ◌++◌, Option, some, arith, be, length,
  replicate,
}
use flight_safety_system.Examples.Micro.{micro}
use flight_safety_system.Message.{FssMessageType, Body, Message, make, body_type, type_code}
use flight_safety_system.Buffer.{add_data}
use flight_safety_system.Message.Pack.{get_packed, pack_data, create_header, update_size}
use flight_safety_system.Message.RoundTrip.{Sendable}
use flight_safety_system.Connection.{Connection}
use flight_safety_system.Connection.Send.{SendReply, send_bytes, IsPrefixSent, send_bytes_in_order}
use flight_safety_system.Connection.Receive.{
  Reply, Received, total_length, recv_msg, Run, process_messages,
}
use flight_safety_system.Connection.Receive.Framing.{IsChunks, replies, flatten, packed_tail}
use flight_safety_system.Connection.Receive.Broken.{eof, recv_msg-eof_loops, recv_msg_runt}
use flight_safety_system.Connection.Receive.Session.{
  Delivery, IsDelivery, stream, hand_over_all, process_messages-stream,
}

abbrev request : Message micro
request = record { id = 5; type = FssMessageType.rtt_request; body = Body.rtt_request }

request-Sendable : Sendable request
unfolding body_type
request-Sendable = record { id = omega arith; type = refl; in_range = tt; size = omega arith }

-- The 14 bytes behind the length, in three parts.
abbrev parts : List (List ℕ)
parts = (0 ∷ []) ∷ (3 ∷ 0 ∷ 0 ∷ []) ∷ (0 ∷ 0 ∷ 0 ∷ 0 ∷ 0 ∷ 5 ∷ 0 ∷ 0 ∷ 0 ∷ 0 ∷ []) ∷ []

parts-IsChunks : IsChunks parts
parts-IsChunks = (omega arith, (omega arith, (omega arith, tt)))

parts-packed_tail : flatten parts ≡ packed_tail request
unfolding get_packed pack_data create_header update_size be type_code add_data
parts-packed_tail = refl

abbrev delivery : Delivery micro
delivery = record { message = request; chunks = parts }

delivery-IsDelivery : IsDelivery micro delivery
delivery-IsDelivery = record {
  sendable = request-Sendable;
  non_empty = parts-IsChunks;
  whole = parts-packed_tail;
}

-- A callback that keeps what it gets.
abbrev keep : List (Option (Message micro)) → Option (Message micro) → List (Option (Message micro))
keep msgs msg = msgs ++ msg ∷ []

process_messages-stream_example :
    process_messages micro keep
      (λ _. false)
      3
      []
      (stream micro (delivery ∷ delivery ∷ []) (Reply.bytes [] ∷ []))
    ≡ Run.returned
        (keep (hand_over_all micro keep [] (delivery ∷ delivery ∷ [])) (some (make Body.closed)))
process_messages-stream_example =
    process_messages-stream micro keep (λ _. false) (delivery ∷ delivery ∷ []) 3 [] [] (omega arith)
      (delivery-IsDelivery, (delivery-IsDelivery, tt))

early_close : 2 + length (flatten ((3 ∷ 0 ∷ []) ∷ [])) < total_length 12
unfolding total_length
early_close = ground arith

runt_room : length (flatten (replicate 6 0 ∷ [])) ≡ total_length 8 - 2
unfolding total_length
runt_room = refl

recv_msg-eof_loops_example :
    recv_msg micro false (Reply.bytes (be 2 12) ∷ (replies ((3 ∷ 0 ∷ []) ∷ []) ++ replicate 5 eof))
    ≡ Received.waiting
recv_msg-eof_loops_example =
    recv_msg-eof_loops micro false 12 5 ((3 ∷ 0 ∷ []) ∷ []) (omega arith) early_close

recv_msg_runt_example :
    recv_msg micro false (Reply.bytes (be 2 8) ∷ (replies (replicate 6 0 ∷ []) ++ []))
    ≡ Received.fault
recv_msg_runt_example =
    recv_msg_runt micro false 8 (replicate 6 0 ∷ []) [] (omega arith) (omega arith, tt) runt_room

send_bytes_in_order_example :
    IsPrefixSent
      (replicate 5 1)
      (send_bytes (replicate 5 1) (SendReply.transfered 2 ∷ SendReply.failed ∷ []))
send_bytes_in_order_example =
    send_bytes_in_order (replicate 5 1) (SendReply.transfered 2 ∷ SendReply.failed ∷ [])

abbrev idle : List (Option (Message micro)) → Connection micro
idle queue = record {
  fd = some 4;
  last_msg_id = 0;
  handler = false;
  messages = queue;
  usable = true;
  possible_names = [];
  hostname = [];
  receiving = true;
  sent = [];
}
