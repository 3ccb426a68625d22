-- ===== src/Checks/Network.antt =====
-- The network nodes.
use com_ipc.Common.{ℕ, ◌+◌, ◌-◌, ◌^◌, ◌≡◌, refl, List, [], ◌∷◌, true, false, none, some, arith}
use com_ipc.Common.Bytes.{le_bytes, of_le}
use com_ipc.Udp.Header.{QosHeader, pack, unpack}
use com_ipc.Udp.{
  UdpPublisher, UdpSubscriber, UdpServiceClient, answer, publish, receive, accept, call,
  receive_request, send_response, topic_packet,
}
use com_ipc.Udp.Order.{
  receive_all, publish_all, receive_all-publish_all, taken, Rising, taken-Rising,
  receive_all-publish_wrapped,
}
use com_ipc.Udp.Sockets.{Sockets, udp_publisher}
use com_ipc.Udp.Restart.{receive_all-udp_publisher}
use com_ipc.Udp.Rpc.{call_roundtrip}

abbrev header : QosHeader
header = record { seq_id = 258; timestamp_us = 5; msg_type = 1; qos_flag = 0 }

packed : pack header ≡ 2 ∷ 1 ∷ 0 ∷ 0 ∷ 5 ∷ 0 ∷ 0 ∷ 0 ∷ 0 ∷ 0 ∷ 0 ∷ 0 ∷ 1 ∷ 0 ∷ []
unfolding pack le_bytes
packed = refl

abbrev sender : UdpPublisher
sender = record { has_socket = true; current_seq = 7 }

abbrev receiver : UdpSubscriber
receiver = record { has_socket = true; last_valid_seq = 0 }

abbrev two_messages : List (ℕ × List ℕ)
two_messages = (5, 1 ∷ 2 ∷ []) ∷ (6, 3 ∷ []) ∷ []

empty_refused : publish sender (some []) 5 (some 14) ≡ (sender, none, false)
unfolding publish
empty_refused = refl

too_short : receive receiver (some (1 ∷ 2 ∷ [])) ≡ (receiver, none)
unfolding receive accept com_ipc.Udp.in_buffer
too_short = refl

receive_all-publish_all_example :
    receive_all receiver (publish_all sender two_messages) ≡ (1 ∷ 2 ∷ []) ∷ (3 ∷ []) ∷ []
receive_all-publish_all_example =
    receive_all-publish_all sender receiver two_messages refl refl (omega arith) (omega arith)
      (omega arith)

-- Number 258 arrives twice.
taken-Rising_example : Rising 0 (taken receiver (pack header ∷ pack header ∷ []))
unfolding unpack pack le_bytes of_le com_ipc.Udp.in_buffer
taken-Rising_example =
    taken-Rising receiver (pack header ∷ pack header ∷ []) (omega arith, (omega arith, tt))

receive_all-publish_wrapped_example :
    let last : UdpPublisher = record { has_socket = true; current_seq = 2 ^ 32 - 1 } in
    let full : UdpSubscriber = record receiver { last_valid_seq = 2 ^ 32 - 1 } in
    ((publish last (some (1 ∷ [])) 5 none).0 ≡ record last { current_seq = 0 })
    × ((publish last (some (1 ∷ [])) 5 none).1 ≡ some (topic_packet 0 5 (1 ∷ [])))
    × (receive_all full (publish_all last ((5, 1 ∷ []) ∷ two_messages)) ≡ [])
receive_all-publish_wrapped_example =
    receive_all-publish_wrapped (record { has_socket = true; current_seq = 2 ^ 32 - 1 })
      (record receiver { last_valid_seq = 2 ^ 32 - 1 }) 5 1 [] none two_messages refl (omega arith)
      refl refl

abbrev caller : UdpServiceClient
caller = record { has_socket = true; current_request_id = 2 }

abbrev noise : List (List ℕ)
noise = (1 ∷ 2 ∷ []) ∷ pack header ∷ []

call_roundtrip_example :
    (packet : List ℕ) × (id : ℕ) × (response : List ℕ) × ((call caller
        (some (1 ∷ []))
        5
        (some (1 ∷ 2 ∷ []) ∷ some (pack header) ∷ some response ∷ [])).1
      ≡ some packet)
    × (receive_request (some packet) ≡ some (1 ∷ [], id))
    × ((send_response true (some (8 ∷ [])) id 6 none).0 ≡ some response)
    × ((call caller
          (some (1 ∷ []))
          5
          (some (1 ∷ 2 ∷ []) ∷ some (pack header) ∷ some response ∷ [])).2
        ≡ answer (8 ∷ []))
unfolding unpack pack le_bytes of_le com_ipc.Udp.in_buffer
call_roundtrip_example =
    call_roundtrip caller 1 [] 8 [] 5 6 noise [] none refl (omega arith) (omega arith) (omega arith)
      (omega arith) (refl, (refl, tt))

-- A kernel that gives each socket the next number.
abbrev network : Sockets
network = record {
  Os = ℕ;
  socket = λ os. (some os, os + 1);
  setsockopt = λ sock option os. (true, os);
  bind = λ sock address os. (true, os);
  close = λ fd os. os;
  inet_addr = λ text. 16777343;
}

receive_all-udp_publisher_example :
    receive_all
      (record receiver { last_valid_seq = 1 })
      (publish_all (udp_publisher network [] 9999 3).0.numbers two_messages)
    ≡ (3 ∷ []) ∷ []
unfolding udp_publisher
receive_all-udp_publisher_example =
    receive_all-udp_publisher network [] 9999 3 (record receiver { last_valid_seq = 1 })
      two_messages refl refl (omega arith) (omega arith)
