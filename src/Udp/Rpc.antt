-- ===== src/Udp/Rpc.antt =====
-- A call over the network: UDPServiceClient::call against UDPServiceServer.
use com_ipc.Common.{
  ℕ, ◌+◌, ◌%◌, ◌^◌, ◌≤◌, ◌<◌, ◌≡◌, refl, ap, ◌∙◌, ◌⊎◌, inl, List, [], ◌∷◌, ◌++◌, true, false,
  Option, none, some, length, drop, arith, length-append,
}
use com_ipc.Udp.Header.{
  QosHeader, qos_header_size, pack, unpack, length-pack, unpack-pack, drop-pack,
}
use com_ipc.Udp.Order.{in_buffer_all, Fits}
use com_ipc.Udp.{
  in_buffer, UdpServiceClient, answer, is_reply, await_reply, call, receive_request, send_response,
  request_packet, response_packet,
}

-- How a packed header reads, in front of any payload.
packed :
    (seq now type flag : ℕ) (bs : List ℕ)
    → seq < 2 ^ 32
    → now < 2 ^ 64
    → type < 256
    → flag < 256
    → let h : QosHeader = record {
      seq_id = seq;
      timestamp_us = now;
      msg_type = type;
      qos_flag = flag;
    } in
      (unpack (pack h ++ bs) ≡ h)
      × (length (pack h ++ bs) ≡ qos_header_size + length bs)
      × (drop qos_header_size (pack h ++ bs) ≡ bs)
packed seq now type flag bs a b c d = (
  unpack-pack _ bs (record { seq_id_lt = a; timestamp_lt = b; msg_type_lt = c; qos_flag_lt = d }),
  length-append (pack _) bs ∙ ap (λ n. n + length bs) (length-pack _),
  drop-pack _ bs,
)

-- The server takes a request packet, with its payload and its number.
pub receive_request-request_packet :
    (id now : ℕ) (bs : List ℕ)
    → id < 2 ^ 32
    → now < 2 ^ 64
    → Fits bs
    → receive_request (some (request_packet id now bs)) ≡ some (bs, id)
unfolding receive_request
receive_request-request_packet id now bs a b f =
    let (u, l, d) = packed id now 1 1 bs a b (omega arith) (omega arith) in
    rw (in_buffer_all (request_packet id now bs) (omega (arith, l))) (ground (arith, u, l, d))

-- A server drops what is no request, a client what is no reply.
is_reply-response_packet :
    (id now : ℕ) (bs : List ℕ)
    → id < 2 ^ 32
    → now < 2 ^ 64
    → (is_reply id (response_packet id now bs) ≡ true)
      × (drop qos_header_size (response_packet id now bs) ≡ bs)
is_reply-response_packet id now bs a b =
    let (u, l, d) = packed id now 2 0 bs a b (omega arith) (omega arith) in
    (ground (arith, u, l), d)

-- Datagrams that are no reply of this session: too short, of another type, or of another call.
abbrev pub AreForeign : ℕ → List (List ℕ) → Type 0
AreForeign id [] = Unit {0}
AreForeign id (d ∷ ds) = (is_reply id (in_buffer d) ≡ false) × AreForeign id ds

abbrev pub arrive : List (List ℕ) → List (Option (List ℕ)) → List (Option (List ℕ))
arrive [] rest = rest
arrive (d ∷ ds) rest = some d ∷ arrive ds rest

await_reply-foreign :
    (id : ℕ) (ds : List (List ℕ)) (rest : List (Option (List ℕ)))
    → AreForeign id ds
    → await_reply id (arrive ds rest) ≡ await_reply id rest
unfolding await_reply
await_reply-foreign id [] rest v = refl
await_reply-foreign id (d ∷ ds) rest v = rw (v.0, await_reply-foreign id ds rest v.1)

await_reply-response_packet :
    (id now : ℕ) (bs : List ℕ) (rest : List (Option (List ℕ)))
    → id < 2 ^ 32
    → now < 2 ^ 64
    → Fits bs
    → await_reply id (some (response_packet id now bs) ∷ rest) ≡ answer bs
unfolding await_reply
await_reply-response_packet id now bs rest a b f =
    let (r, d) = is_reply-response_packet id now bs a b in
    let (_, l, _) = packed id now 2 0 bs a b (omega arith) (omega arith) in
    rw (in_buffer_all (response_packet id now bs) (omega (arith, l)), r, d)

-- One call, end to end. The datagram that a client with a socket sends for a request that is not
-- empty is taken by the server with exactly its bytes and a number; the server's response to that
-- number is sent; and the client answers exactly the response's bytes, whatever foreign datagrams
-- arrive first and whatever arrives behind it, for bytes that fit into the buffers with their header.
pub call_roundtrip :
    (c : UdpServiceClient) (b : ℕ) (bs : List ℕ) (r : ℕ) (rs : List ℕ) (now then' : ℕ)
    → (noise : List (List ℕ)) (rest : List (Option (List ℕ))) (sent : Option ℕ)
    → c.has_socket ≡ true
    → now < 2 ^ 64
    → then' < 2 ^ 64
    → Fits (b ∷ bs)
    → Fits (r ∷ rs)
    → AreForeign ((c.current_request_id + 1) % 2 ^ 32) noise
    → (packet : List ℕ) × (id : ℕ) × (response : List ℕ) × ((call c
          (some (b ∷ bs))
          now
          (arrive noise (some response ∷ rest))).1
        ≡ some packet)
      × (receive_request (some packet) ≡ some (b ∷ bs, id))
      × ((send_response true (some (r ∷ rs)) id then' sent).0 ≡ some response)
      × ((call c (some (b ∷ bs)) now (arrive noise (some response ∷ rest))).2 ≡ answer (r ∷ rs))
unfolding call send_response
call_roundtrip c b bs r rs now then' noise rest sent h p q fb fr foreign =
    let id : ℕ = (c.current_request_id + 1) % 2 ^ 32 in
    (
      request_packet id now (b ∷ bs),
      id,
      response_packet id then' (r ∷ rs),
      rw h,
      receive_request-request_packet id now (b ∷ bs) (omega arith) p fb,
      refl,
      rw h (
          await_reply-foreign id noise (some (response_packet id then' (r ∷ rs)) ∷ rest) foreign
          ∙ await_reply-response_packet id then' (r ∷ rs) rest (omega arith) q fr),
    )

-- The payload of a datagram that arrived and is a reply of this session.
abbrev pub Replied : ℕ → List ℕ → List (Option (List ℕ)) → Type 0
Replied id a [] = ⊥
Replied id a (none ∷ ds) = ⊥
Replied id a (some d ∷ ds) =
    ((qos_header_size ≤ length (in_buffer d))
      × ((unpack (in_buffer d)).msg_type ≡ 2)
      × ((unpack (in_buffer d)).seq_id ≡ id)
      × (a ≡ drop qos_header_size (in_buffer d)))
    ⊎ Replied id a ds

await_reply-Replied :
    (id : ℕ) (ds : List (Option (List ℕ))) (a : List ℕ)
    → await_reply id ds ≡ answer a
    → (a ≡ []) ⊎ Replied id a ds
unfolding await_reply
await_reply-Replied id [] a e = cc
await_reply-Replied id (none ∷ ds) a e = inl (ground arith)
await_reply-Replied id (some d ∷ ds) a e = ground (arith, await_reply-Replied id ds a)

-- A call never takes a wrong answer: what it answers is the empty string, or the payload of a
-- datagram that arrived before any time-out, of type 2 and with the number of this call.
pub call-Replied :
    (c : UdpServiceClient) (bytes : Option (List ℕ)) (now : ℕ) (ds : List (Option (List ℕ)))
    → (a : List ℕ) → (call c bytes now ds).2 ≡ answer a
    → (a ≡ []) ⊎ Replied ((c.current_request_id + 1) % 2 ^ 32) a ds
unfolding call
call-Replied c bytes now ds a e =
    ground (arith, await_reply-Replied ((c.current_request_id + 1) % 2 ^ 32) ds a)
