-- ===== src/Router/Import.antt =====
-- The streams that do_import of tools/com_router.cpp takes.
use com_ipc.Common.{
  ℕ, ◌-◌, ◌≤◌, ◌<◌, ◌^◌, ◌≡◌, refl, ap, ◌∙◌, List, [], ◌∷◌, ◌++◌, Bool, true, false, Result, ok,
  throw, if◌then◌else◌, ◌==◌, length, arith, length-append, Bool-cases, inl, inr, fun_ext,
  append-nil,
}
use com_ipc.Common.Bytes.{le_bytes, length-le_bytes, of_le-le_bytes}
use com_ipc.CString.{same_chars}
use com_ipc.Topic.{Shm, Call}
use com_ipc.Bag.{play_frame}
use com_ipc.Router.{Round, returned, recv_all}
use com_ipc.Router.Transfer.{
  AreLive, Left, received_whole, recv_all_exact, recv_all_closed, send_all_whole, sent_whole,
}
use com_ipc.Router.Gateway.{
  export_magic, import_magic, frame_parts, Stop, stopped, failed_call, threw, in_call, ImportRound,
  import_payload, import_frame, import_size, import_loop, invalid_magic, importing, after_length,
  after_magic, do_import, send_parts,
}

-- The frames of the import format.
abbrev pub encode : List (List ℕ) → List ℕ
encode [] = []
encode (bytes ∷ frames) = le_bytes 8 (length bytes) ++ (bytes ++ encode frames)

-- A stream of the import format.
abbrev pub import_stream : (topic : List ℕ) → List (List ℕ) → List ℕ
import_stream topic frames = import_magic ++ (le_bytes 8 (length topic) ++ (topic ++ encode frames))

abbrev pub then_import : (Shm → Stop × Shm) → Result Bool × Shm → Stop × Shm
then_import rest (throw e, s) = (threw e, s)
then_import rest (ok _, s) = rest s

-- Importing a list of frames: each one is loaned, filled and published whole.
unfoldable pub import_all : List ImportRound → List (List ℕ) → Shm → Stop × Shm
import_all [] frames s = (in_call, s)
import_all (r ∷ rs) [] s = if r.running then (failed_call, s) else (stopped, s)
import_all (r ∷ rs) (bytes ∷ frames) s =
    if r.running
    then then_import (import_all rs frames) (play_frame r.call (length bytes) bytes s)
    else (stopped, s)

abbrev pub AreBlocks : List (List ℕ) → Type 0
AreBlocks [] = Unit {0}
AreBlocks (bytes ∷ frames) = (length bytes < 256 ^ 8) × AreBlocks frames

abbrev pub joined : List (List ℕ) → List ℕ
joined [] = []
joined (part ∷ parts) = part ++ joined parts

-- The parts of a frame go into the stream one behind the other.
send_parts_whole :
    (rounds : List Round) (parts : List (List ℕ))
    → AreLive rounds
    → length (joined parts) ≤ length rounds
    → (left : List Round) × Left (length (joined parts)) rounds left
      × (send_parts parts rounds ≡ sent_whole (joined parts) left)
unfolding send_parts
send_parts_whole rounds [] live fuel = (rounds, (live, omega arith), refl)
send_parts_whole rounds (part ∷ parts) live fuel =
    let n = length-append part (joined parts) in
    let (mid, (live1, few1), first) = send_all_whole rounds part live (omega (arith, n)) in
    let (left, (live2, few2), rest) = send_parts_whole mid parts live1 (omega (arith, n)) in
    (left, (live2, omega (arith, n)), rw (first, rest) refl)

-- A frame that `recv_all` received whole.
import_frame-whole :
    (c : Call) (bytes tail : List ℕ) (rest : List Round → List ℕ → Shm → Stop × Shm)
    → (rounds left : List Round) (s : Shm)
    → recv_all rounds (bytes ++ tail) (length bytes) ≡ received_whole bytes left tail
    → import_frame c (length bytes) rest rounds (bytes ++ tail) s
      ≡ then_import (rest left tail) (play_frame c (length bytes) bytes s)
unfolding import_frame import_payload play_frame
import_frame-whole c bytes tail rest rounds left s e = ground (arith, e)

import_size-whole :
    (c : Call) (size : ℕ) (rest : List Round → List ℕ → Shm → Stop × Shm)
    → (left : List Round) (inbox : List ℕ) (s : Shm) → size < 256 ^ 8
    → import_size c rest (received_whole (le_bytes 8 size) left inbox) s
      ≡ import_frame c size rest left inbox s
unfolding import_size
import_size-whole c size rest left inbox s h =
    ground (arith, length-le_bytes 8 size, of_le-le_bytes 8 size h)

import_size-closed :
    (c : Call) (rest : List Round → List ℕ → Shm → Stop × Shm) (rounds : List Round) (s : Shm)
    → import_size c rest
        (record { stored = []; outcome = returned false; rounds = rounds; inbox = [] })
        s
      ≡ (failed_call, s)
unfolding import_size
import_size-closed c rest rounds s = refl

import_loop-encode :
    (rs : List ImportRound) (rounds : List Round) (frames : List (List ℕ)) (s : Shm)
    → AreLive rounds
    → AreBlocks frames
    → length (encode frames) < length rounds
    → import_loop rs rounds (encode frames) s ≡ import_all rs frames s
unfolding import_loop import_all
import_loop-encode [] rounds frames s live v fuel = refl
import_loop-encode (r ∷ rs) [] frames s live v fuel = absurd (omega arith)
import_loop-encode (r ∷ rs) (q ∷ rounds) [] s live v fuel = elim (Bool-cases r.running) [
  | inr e ↦ rw e refl
  | inl e ↦
      rw (e, recv_all_closed q rounds 7 live.0)
        (import_size-closed r.call (import_loop rs) rounds s)
]
import_loop-encode (r ∷ rs) (q ∷ rounds) (bytes ∷ frames) s live v fuel =
    let head = length-le_bytes 8 (length bytes) in
    let all = length-append (le_bytes 8 (length bytes)) (bytes ++ encode frames) in
    let both = length-append bytes (encode frames) in
    let (after, (live1, few1), sized) =
      recv_all_exact (q ∷ rounds) (le_bytes 8 (length bytes)) (bytes ++ encode frames) 8 head live
        (omega (arith, head, all)) in
    let (left, (live2, few2), filled) =
      recv_all_exact after bytes (encode frames) (length bytes) refl live1
        (omega (arith, head, all, both)) in
    let next : import_loop rs left (encode frames) ≡ import_all rs frames =
      fun_ext
        (λ s'. import_loop-encode rs left frames s' live2 v.1 (omega (arith, head, all, both))) in
    elim (Bool-cases r.running) [
      | inr e ↦ rw e refl
      | inl e ↦
          rw (e, sized)
            (import_size-whole r.call (length bytes) (import_loop rs) after (bytes ++ encode frames)
                s v.0
              ∙ import_frame-whole r.call bytes (encode frames) (import_loop rs) after left s filled
              ∙ ap (λ k. then_import k (play_frame r.call (length bytes) bytes s)) next)
    ]

after_length-whole :
    (rs : List ImportRound) (topic tail : List ℕ) (rounds left : List Round) (s : Shm)
    → length topic < 256 ^ 8
    → recv_all rounds (topic ++ tail) (length topic) ≡ received_whole topic left tail
    → after_length rs (received_whole (le_bytes 8 (length topic)) rounds (topic ++ tail)) s
      ≡ importing topic (import_loop rs left tail s)
unfolding after_length
after_length-whole rs topic tail rounds left s short e =
    let size = of_le-le_bytes 8 (length topic) short in
    let full : (length (le_bytes 8 (length topic)) == 8) ≡ true =
      ground (arith, length-le_bytes 8 (length topic)) in
    let none_missing : length topic - length topic ≡ 0 = omega arith in
    rw (full, size, e) (rw none_missing (rw (append-nil topic) refl))

-- A gateway that imports a whole stream of its format publishes its frames to its topic, one by one
-- and whole, until the peer closes, however the network cuts the stream, as long as no call of `recv`
-- fails before the end and there are more of them than bytes.
pub do_import-stream :
    (rs : List ImportRound) (rounds : List Round) (topic : List ℕ) (frames : List (List ℕ))
    (s : Shm)
    → AreLive rounds
    → length topic < 256 ^ 8
    → AreBlocks frames
    → length (import_stream topic frames) < length rounds
    → do_import rs rounds (import_stream topic frames) s ≡ importing topic (import_all rs frames s)
unfolding do_import after_magic same_chars
do_import-stream rs rounds topic frames s live short v fuel =
    let head = length-le_bytes 8 (length topic) in
    let all = length-append (le_bytes 8 (length topic)) (topic ++ encode frames) in
    let both = length-append topic (encode frames) in
    let (after1, (live1, few1), magic) =
      recv_all_exact rounds import_magic (le_bytes 8 (length topic) ++ (topic ++ encode frames)) 4
        refl live (omega arith) in
    let (after2, (live2, few2), sized) =
      recv_all_exact after1 (le_bytes 8 (length topic)) (topic ++ encode frames) 8 head live1
        (omega (arith, head, all)) in
    let (after3, (live3, few3), named) =
      recv_all_exact after2 topic (encode frames) (length topic) refl live2
        (omega (arith, head, all, both)) in
    rw magic (
      rw sized (
        after_length-whole rs topic (encode frames) after2 after3 s short named
        ∙ ap (importing topic)
            (import_loop-encode rs after3 frames s live3 v (omega (arith, head, all, both)))))

-- What a gateway exports no gateway imports: a stream that begins with a frame as `do_export` sends
-- it is refused, whatever it carries.
pub do_import-send_parts :
    (sends rounds : List Round) (rs : List ImportRound) (meta payload tail : List ℕ) (s : Shm)
    → AreLive sends
    → AreLive rounds
    → length (joined (frame_parts meta payload)) ≤ length sends
    → 4 ≤ length rounds
    → do_import rs rounds ((send_parts (frame_parts meta payload) sends).stream ++ tail) s
      ≡ invalid_magic
unfolding do_import after_magic same_chars
do_import-send_parts sends rounds rs meta payload tail s live live' enough few =
    let (_, _, sent) = send_parts_whole sends (frame_parts meta payload) live enough in
    let rest =
      joined (le_bytes 4 (length meta) ∷ le_bytes 4 (length payload) ∷ meta ∷ payload ∷ []) in
    let (_, _, magic) = recv_all_exact rounds export_magic (rest ++ tail) 4 refl live' few in
    rw sent (rw magic refl)
