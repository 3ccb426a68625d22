-- ===== src/Udp/Order.antt =====
-- Order on the receiving side: UDPSubscriber::receive takes no datagram twice and none that is out
-- of date.
use com_ipc.Common.{
  ℕ, ◌+◌, ◌%◌, ◌^◌, ◌≤◌, ◌<◌, ◌≡◌, refl, ap, ◌∙◌, List, [], ◌∷◌, ◌++◌, true, false, not, ◌&&◌,
  Option, none, some, zero, suc, if◌then◌else◌, leb, ◌==◌, length, arith, length-append,
}
use com_ipc.Common.{◌-◌, take}
use com_ipc.Udp.Header.{
  QosHeader, qos_header_size, pack, unpack, length-pack, unpack-pack, drop-pack,
}
use com_ipc.Udp.{
  UdpPublisher, UdpSubscriber, publish, receive, accept, topic_packet, in_buffer, datagram_size,
  sent_whole,
}

take_all {ℓ} : {A : Type ℓ} (n : ℕ) (xs : List A) → length xs ≤ n → take n xs ≡ xs
take_all zero [] h = refl
take_all (suc n) [] h = refl
take_all zero (x ∷ xs) h = absurd (omega arith)
take_all (suc n) (x ∷ xs) h = ap (λ r. x ∷ r) (take_all n xs (omega arith))

-- A datagram that fits is received whole.
pub in_buffer_all : (d : List ℕ) → length d ≤ datagram_size → in_buffer d ≡ d
unfolding in_buffer
in_buffer_all d h = take_all datagram_size d h

-- A payload that fits into the buffer with its header.
abbrev pub Fits : List ℕ → Type 0
Fits bs = qos_header_size + length bs ≤ datagram_size

topic_packet-length :
    (seq now : ℕ) (bs : List ℕ) → length (topic_packet seq now bs) ≡ qos_header_size + length bs
topic_packet-length seq now bs = length-append (pack _) bs ∙ ap (λ n. n + length bs) (length-pack _)

pub topic_packet-in_buffer :
    (seq now : ℕ) (bs : List ℕ)
    → Fits bs
    → in_buffer (topic_packet seq now bs) ≡ topic_packet seq now bs
topic_packet-in_buffer seq now bs f =
    in_buffer_all (topic_packet seq now bs) (omega (arith, topic_packet-length seq now bs))

-- What a datagram of a publisher is to a subscriber: new, or out of date.
pub accept-topic_packet :
    (s : UdpSubscriber) (seq now : ℕ) (bs : List ℕ)
    → seq < 2 ^ 32
    → now < 2 ^ 64
    → accept s (topic_packet seq now bs) ≡ (
        if not (s.last_valid_seq == 0) && leb seq s.last_valid_seq
        then (s, none)
        else (record s { last_valid_seq = seq }, some bs))
unfolding accept
accept-topic_packet s seq now bs p q =
    let h : QosHeader = record { seq_id = seq; timestamp_us = now; msg_type = 0; qos_flag = 0 } in
    let e : unpack (pack h ++ bs) ≡ h = unpack-pack h bs (record {
      seq_id_lt = p;
      timestamp_lt = q;
      msg_type_lt = omega arith;
      qos_flag_lt = omega arith;
    }) in
    ground (arith, e, topic_packet-length seq now bs, drop-pack h bs)

-- A datagram with a number above the last valid one is taken.
pub receive-topic_packet :
    (s : UdpSubscriber) (seq now : ℕ) (bs : List ℕ)
    → s.has_socket ≡ true
    → s.last_valid_seq < seq
    → seq < 2 ^ 32
    → now < 2 ^ 64
    → Fits bs
    → receive s (some (topic_packet seq now bs)) ≡ (record s { last_valid_seq = seq }, some bs)
unfolding receive
receive-topic_packet s seq now bs hs n p q f =
    rw (topic_packet-in_buffer seq now bs f) (ground (arith, accept-topic_packet s seq now bs p q))

pub publish_next :
    (p : UdpPublisher) (b : ℕ) (bs : List ℕ) (now : ℕ)
    → p.has_socket ≡ true
    → p.current_seq + 1 < 2 ^ 32
    → publish p (some (b ∷ bs)) now none ≡ (
      record p { current_seq = p.current_seq + 1 },
      some (topic_packet (p.current_seq + 1) now (b ∷ bs)),
      false,
    )
unfolding publish
publish_next p b bs now hp short =
    let e : (p.current_seq + 1) % 2 ^ 32 ≡ p.current_seq + 1 = omega arith in rw (hp, e)

-- What a subscriber hands on of the datagrams that it gets, one call of `receive` for each.
abbrev pub hand_on {ℓ} : {A : Type ℓ} → Option A → List A → List A
hand_on (some a) rest = a ∷ rest
hand_on none rest = rest

unfoldable pub receive_all : UdpSubscriber → List (List ℕ) → List (List ℕ)
unfolding receive
receive_all s [] = []
receive_all s (d ∷ ds) = let (s', r) = receive s (some d) in hand_on r (receive_all s' ds)

-- The datagrams of a publisher that is given a list of payloads, each at its time.
unfoldable pub publish_all : UdpPublisher → List (ℕ × List ℕ) → List (List ℕ)
unfolding publish
publish_all p [] = []
publish_all p ((now, bs) ∷ rest) =
    let (p', d, _) = publish p (some bs) now none in hand_on d (publish_all p' rest)

-- Payloads that are not empty and fit, at times of 64 bits.
abbrev pub AreMessages : List (ℕ × List ℕ) → Type 0
AreMessages [] = Unit {0}
AreMessages ((now, bs) ∷ rest) = (now < 2 ^ 64) × ((0 < length bs) × Fits bs) × AreMessages rest

abbrev pub payloads : List (ℕ × List ℕ) → List (List ℕ)
payloads [] = []
payloads ((_, bs) ∷ rest) = bs ∷ payloads rest

-- Over a network that neither loses nor reorders, a subscriber that is not ahead of the publisher
-- hands on exactly the payloads that were published, in order, as long as the 32-bit sequence
-- number does not wrap and each payload fits into the receiver's buffer with its header.
pub receive_all-publish_all :
    (p : UdpPublisher) (s : UdpSubscriber) (messages : List (ℕ × List ℕ))
    → p.has_socket ≡ true
    → s.has_socket ≡ true
    → AreMessages messages
    → s.last_valid_seq ≤ p.current_seq
    → p.current_seq + length messages < 2 ^ 32
    → receive_all s (publish_all p messages) ≡ payloads messages
unfolding receive_all publish_all
receive_all-publish_all p s [] hp hs v le short = refl
receive_all-publish_all p s ((now, []) ∷ rest) hp hs v le short = absurd (omega arith)
receive_all-publish_all p s ((now, b ∷ bs) ∷ rest) hp hs (vn, (_, vf), v) le short =
    rw
      (
        publish_next p b bs now hp (omega arith),
        receive-topic_packet s (p.current_seq + 1) now (b ∷ bs) hs (omega arith) (omega arith) vn
            vf,
      )
      (ap (λ r. (b ∷ bs) ∷ r)
        (receive_all-publish_all (record p { current_seq = p.current_seq + 1 })
          (record s { last_valid_seq = p.current_seq + 1 }) rest hp hs v (omega arith)
          (omega arith)))

-- The numbers of the datagrams that a subscriber takes.
unfoldable pub taken : UdpSubscriber → List (List ℕ) → List ℕ
unfolding receive
taken s [] = []
taken s (d ∷ ds) =
    let (s', r) = receive s (some d) in
    let rest = taken s' ds in elim r [ some _ ↦ s'.last_valid_seq ∷ rest | none ↦ rest ]

abbrev pub Rising : ℕ → List ℕ → Type 0
Rising b [] = Unit {0}
Rising b (n ∷ ns) = (b < n) × Rising n ns

-- Publishers number from 1.
abbrev pub AreNumbered : List (List ℕ) → Type 0
AreNumbered [] = Unit {0}
AreNumbered (d ∷ ds) = (0 < (unpack (in_buffer d)).seq_id) × AreNumbered ds

-- Whatever the network loses, repeats, reorders or makes up, the numbers of the datagrams that are
-- taken rise strictly from the last valid one on, provided that no datagram has number 0.
pub taken-Rising :
    (s : UdpSubscriber) (ds : List (List ℕ)) → AreNumbered ds → Rising s.last_valid_seq (taken s ds)
unfolding taken accept
taken-Rising s [] v = tt
taken-Rising s (d ∷ ds) v = ground (
  arith,
  v.0,
  taken-Rising s ds v.1,
  taken-Rising (record s { last_valid_seq = (unpack (in_buffer d)).seq_id }) ds v.1,
)

receive-topic_packet_saturated :
    (s : UdpSubscriber) (seq now : ℕ) (bs : List ℕ)
    → s.last_valid_seq ≡ 2 ^ 32 - 1
    → seq < 2 ^ 32
    → now < 2 ^ 64
    → Fits bs
    → receive s (some (topic_packet seq now bs)) ≡ (s, none)
unfolding receive
receive-topic_packet_saturated s seq now bs e p q f =
    rw (topic_packet-in_buffer seq now bs f) (ground (arith, accept-topic_packet s seq now bs p q))

publish_step :
    (p : UdpPublisher) (b : ℕ) (bs : List ℕ) (now : ℕ) (sent : Option ℕ)
    → p.has_socket ≡ true
    → let seq : ℕ = (p.current_seq + 1) % 2 ^ 32 in
      let packet : List ℕ = topic_packet seq now (b ∷ bs) in
      publish p (some (b ∷ bs)) now sent
      ≡ (record p { current_seq = seq }, some packet, sent_whole sent packet)
unfolding publish
publish_step p b bs now sent hp = rw hp refl

receive_all-publish_all_saturated :
    (p : UdpPublisher) (s : UdpSubscriber) (messages : List (ℕ × List ℕ))
    → p.has_socket ≡ true
    → AreMessages messages
    → s.last_valid_seq ≡ 2 ^ 32 - 1
    → receive_all s (publish_all p messages) ≡ []
unfolding receive_all publish_all
receive_all-publish_all_saturated p s [] hp v e = refl
receive_all-publish_all_saturated p s ((now, []) ∷ rest) hp v e = absurd (omega arith)
receive_all-publish_all_saturated p s ((now, b ∷ bs) ∷ rest) hp (vn, (_, vf), v) e =
    let seq : ℕ = (p.current_seq + 1) % 2 ^ 32 in
    rw
      (
        publish_step p b bs now none hp,
        receive-topic_packet_saturated s seq now (b ∷ bs) e (omega arith) vn vf,
      )
      (receive_all-publish_all_saturated (record p { current_seq = seq }) s rest hp v e)

-- The wrap-around of the sequence number. A publisher with a socket that has used the greatest 32-bit
-- number gives its next message, which is not empty, the number 0; and a subscriber that has taken the
-- greatest number takes neither this one nor any that the publisher sends after it, though the
-- network neither loses nor reorders and each payload fits into the buffer.
pub receive_all-publish_wrapped :
    (p : UdpPublisher) (s : UdpSubscriber) (now b : ℕ) (bs : List ℕ) (sent : Option ℕ)
    (rest : List (ℕ × List ℕ))
    → p.has_socket ≡ true
    → AreMessages ((now, b ∷ bs) ∷ rest)
    → p.current_seq ≡ 2 ^ 32 - 1
    → s.last_valid_seq ≡ 2 ^ 32 - 1
    → ((publish p (some (b ∷ bs)) now sent).0 ≡ record p { current_seq = 0 })
      × ((publish p (some (b ∷ bs)) now sent).1 ≡ some (topic_packet 0 now (b ∷ bs)))
      × (receive_all s (publish_all p ((now, b ∷ bs) ∷ rest)) ≡ [])
receive_all-publish_wrapped p s now b bs sent rest hp v wrapped e =
    let zero_next : (p.current_seq + 1) % 2 ^ 32 ≡ 0 = omega arith in
    (
      rw (publish_step p b bs now sent hp, zero_next) refl,
      rw (publish_step p b bs now sent hp, zero_next) refl,
      receive_all-publish_all_saturated p s ((now, b ∷ bs) ∷ rest) hp v e,
    )
