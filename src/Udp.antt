-- ===== src/Udp.antt =====
-- The network nodes: inc/protocol.h, inc/udp_node.h and src/udp_node.cpp. A datagram is its list of
-- bytes; the kernel's socket is the environment: whether there is one, what `recvfrom` gave (`none`
-- for a negative length) and what `sendto` returned.
pub mod Header
pub mod Order
pub mod Rpc
pub mod Sockets
pub mod Restart
use com_ipc.Common.{
  ℕ, zero, suc, ◌+◌, ◌%◌, ◌^◌, List, [], ◌∷◌, ◌++◌, Bool, true, false, not, ◌&&◌, ◌||◌, Option,
  none, some, if◌then◌else◌, leb, ltb, ◌==◌, length, drop, take,
}
use Header.{QosHeader, qos_header_size, pack, unpack}

-- `publish`, `call` and `send_response` refuse a null pointer and an empty payload.
abbrev pub is_sendable : Bool → Option (List ℕ) → Bool
is_sendable has_socket none = false
is_sendable has_socket (some []) = false
is_sendable has_socket (some (b ∷ bs)) = has_socket

-- The bytes behind a pointer.
abbrev pub payload : Option (List ℕ) → List ℕ
payload none = []
payload (some bs) = bs

-- `sent == packet.size()`, over what `sendto` returned.
abbrev pub sent_whole : Option ℕ → List ℕ → Bool
sent_whole none packet = false
sent_whole (some n) packet = n == length packet

-- `char buffer[65536]`: what `recvfrom` leaves in it of a datagram.
abbrev pub datagram_size : ℕ
datagram_size = 65536

unfoldable pub in_buffer : List ℕ → List ℕ
in_buffer d = take datagram_size d

-- `UDPPublisher`
pub record UdpPublisher : Type 0 where
  pub has_socket : Bool
  pub current_seq : ℕ

abbrev pub topic_packet : ℕ → ℕ → List ℕ → List ℕ
topic_packet seq now bs =
    pack (record { seq_id = seq; timestamp_us = now; msg_type = 0; qos_flag = 0 }) ++ bs

-- `UDPPublisher::publish`: the datagram that is handed to `sendto`, and the result.
unfoldable pub publish :
    UdpPublisher
    → Option (List ℕ)
    → (now : ℕ) → (sent : Option ℕ) → UdpPublisher × Option (List ℕ) × Bool
publish p bytes now sent =
    if is_sendable p.has_socket bytes
    then (let seq = (p.current_seq + 1) % 2 ^ 32 in
        let packet = topic_packet seq now (payload bytes) in
        (record p { current_seq = seq }, some packet, sent_whole sent packet))
    else (p, none, false)

-- `UDPSubscriber`
pub record UdpSubscriber : Type 0 where
  pub has_socket : Bool
  pub last_valid_seq : ℕ

-- The part of `UDPSubscriber::receive` behind `recvfrom`: too short, out of date, or taken.
unfoldable pub accept : UdpSubscriber → List ℕ → UdpSubscriber × Option (List ℕ)
accept s d =
    if ltb (length d) qos_header_size
    then (s, none)
    else if not (s.last_valid_seq == 0) && leb (unpack d).seq_id s.last_valid_seq
    then (s, none)
    else (record s { last_valid_seq = (unpack d).seq_id }, some (drop qos_header_size d))

-- `UDPSubscriber::receive`; `none` is the empty string of a datagram that is refused.
unfoldable pub receive : UdpSubscriber → Option (List ℕ) → UdpSubscriber × Option (List ℕ)
receive s none = (s, none)
receive s (some d) = if not s.has_socket then (s, none) else accept s (in_buffer d)

-- `UDPServiceClient`
pub record UdpServiceClient : Type 0 where
  pub has_socket : Bool
  pub current_request_id : ℕ

abbrev pub request_packet : ℕ → ℕ → List ℕ → List ℕ
request_packet id now bs =
    pack (record { seq_id = id; timestamp_us = now; msg_type = 1; qos_flag = 1 }) ++ bs

-- The test for a reply of this session.
abbrev pub is_reply : ℕ → List ℕ → Bool
is_reply id d =
    leb qos_header_size (length d) && (unpack d).msg_type == 2 && (unpack d).seq_id == id

-- A call that has an answer (the empty string at a timeout), or is still waiting.
pub data Answer : Type 0 where
  answer : List ℕ → Answer
  waiting : Answer

-- `while (true)` over what the calls of `recvfrom` give.
unfoldable pub await_reply : ℕ → List (Option (List ℕ)) → Answer
await_reply id [] = waiting
await_reply id (none ∷ ds) = answer []
await_reply id (some d ∷ ds) =
    let rest = await_reply id ds in
    if is_reply id (in_buffer d) then answer (drop qos_header_size (in_buffer d)) else rest

-- `UDPServiceClient::call`: the datagram that is sent, and the answer.
unfoldable pub call :
    UdpServiceClient
    → Option (List ℕ)
    → (now : ℕ) → List (Option (List ℕ))
    → UdpServiceClient × Option (List ℕ) × Answer
unfolding await_reply
call c bytes now ds =
    if is_sendable c.has_socket bytes
    then (let id = (c.current_request_id + 1) % 2 ^ 32 in
        (
          record c { current_request_id = id },
          some (request_packet id now (payload bytes)),
          await_reply id ds,
        ))
    else (c, none, answer [])

-- `UDPServiceServer::receive_request`: the request and the `request_id` of `UDPClientAddress`.
unfoldable pub receive_request : Option (List ℕ) → Option (List ℕ × ℕ)
receive_request none = none
receive_request (some d) =
    if leb qos_header_size (length (in_buffer d)) && (unpack (in_buffer d)).msg_type == 1
    then some (drop qos_header_size (in_buffer d), (unpack (in_buffer d)).seq_id)
    else none

abbrev pub response_packet : ℕ → ℕ → List ℕ → List ℕ
response_packet id now bs =
    pack (record { seq_id = id; timestamp_us = now; msg_type = 2; qos_flag = 0 }) ++ bs

-- `UDPServiceServer::send_response` to the client of request `id`.
unfoldable pub send_response :
    Bool → Option (List ℕ) → (id now : ℕ) → (sent : Option ℕ) → Option (List ℕ) × Bool
send_response has_socket bytes id now sent =
    if is_sendable has_socket bytes
    then (let packet = response_packet id now (payload bytes) in
        (some packet, sent_whole sent packet))
    else (none, false)
