-- ===== src/Udp/Restart.antt =====
-- A publisher of src/udp_node.cpp that starts again while its subscribers go on.
use com_ipc.Common.{
  ℕ, zero, suc, ◌+◌, ◌-◌, ◌^◌, ◌≤◌, ◌<◌, ◌≡◌, refl, sym, ap, ◌∙◌, List, [], ◌∷◌, true, none, some,
  leb, length, drop, arith, inl, inr, Bool-cases,
}
use com_ipc.Udp.{UdpPublisher, UdpSubscriber, receive, topic_packet}
use com_ipc.Udp.Order.{
  receive_all, publish_all, AreMessages, payloads, publish_next, accept-topic_packet, Fits,
  topic_packet-in_buffer, receive_all-publish_all,
}
use com_ipc.Udp.Sockets.{Sockets, udp_publisher}

-- A datagram with a number that is not above the last valid one is dropped.
receive-topic_packet_old :
    (s : UdpSubscriber) (seq now : ℕ) (bs : List ℕ)
    → s.has_socket ≡ true
    → seq ≤ s.last_valid_seq
    → 0 < seq
    → seq < 2 ^ 32
    → now < 2 ^ 64
    → Fits bs
    → receive s (some (topic_packet seq now bs)) ≡ (s, none)
unfolding receive
receive-topic_packet_old s seq now bs hs n z p q f =
    rw (topic_packet-in_buffer seq now bs f) (ground (arith, accept-topic_packet s seq now bs p q))

drop_next :
    (n c : ℕ) (m : ℕ × List ℕ) (rest : List (ℕ × List ℕ))
    → c + 1 ≤ n
    → drop (n - c) (m ∷ rest) ≡ drop (n - (c + 1)) rest
drop_next n c m rest h =
    let e : n - c ≡ suc (n - (c + 1)) = omega arith in ap (λ k. drop k (m ∷ rest)) e

drop_none : (n : ℕ) → drop {A = ℕ × List ℕ} n [] ≡ []
drop_none zero = refl
drop_none (suc n) = refl

-- What a subscriber takes of a publisher that is behind it.
receive_all_behind :
    (p : UdpPublisher) (s : UdpSubscriber) (messages : List (ℕ × List ℕ))
    → p.has_socket ≡ true
    → s.has_socket ≡ true
    → AreMessages messages
    → p.current_seq + length messages < 2 ^ 32
    → receive_all s (publish_all p messages)
      ≡ payloads (drop (s.last_valid_seq - p.current_seq) messages)
unfolding receive_all publish_all
receive_all_behind p s [] hp hs v short =
    ap payloads (sym (drop_none (s.last_valid_seq - p.current_seq)))
receive_all_behind p s ((now, []) ∷ rest) hp hs v short = absurd (omega arith)
receive_all_behind p s ((now, b ∷ bs) ∷ rest) hp hs (vn, (vb, vf), v) short =
    elim (Bool-cases (leb (p.current_seq + 1) s.last_valid_seq)) [
      | inl e ↦
          rw
            (
              publish_next p b bs now hp (omega arith),
              receive-topic_packet_old s (p.current_seq + 1) now (b ∷ bs) hs (ground arith)
                  (omega arith) (omega arith) vn vf,
            )
            (receive_all_behind (record p { current_seq = p.current_seq + 1 }) s rest hp hs v
                (omega arith)
              ∙ ap payloads (
                  sym (drop_next s.last_valid_seq p.current_seq (now, b ∷ bs) rest (ground arith))))
      | inr e ↦
          let le : s.last_valid_seq ≤ p.current_seq = ground arith in
          let none_dropped : s.last_valid_seq - p.current_seq ≡ 0 = omega arith in
          rw none_dropped
            (receive_all-publish_all p s ((now, b ∷ bs) ∷ rest) hp hs (vn, (vb, vf), v) le short)
    ]

-- A publisher that is constructed anew while a subscriber stands at number n: over a network that
-- neither loses nor reorders, the subscriber loses exactly the first n messages of the new publisher
-- and hands on all the others, as long as there are fewer than 2 ^ 32 messages and both have their
-- sockets.
pub receive_all-udp_publisher :
    (N : Sockets) (dest_ip : List ℕ) (port : ℕ) (os : N.Os) (s : UdpSubscriber)
    → (messages : List (ℕ × List ℕ)) → (udp_publisher N dest_ip port os).0.numbers.has_socket ≡ true
    → s.has_socket ≡ true
    → AreMessages messages
    → length messages < 2 ^ 32
    → receive_all s (publish_all (udp_publisher N dest_ip port os).0.numbers messages)
      ≡ payloads (drop s.last_valid_seq messages)
unfolding udp_publisher
receive_all-udp_publisher N dest_ip port os s messages hp hs v short =
    let same : s.last_valid_seq - 0 ≡ s.last_valid_seq = omega arith in
    receive_all_behind (udp_publisher N dest_ip port os).0.numbers s messages hp hs v (omega arith)
    ∙ ap (λ k. payloads (drop k messages)) same
