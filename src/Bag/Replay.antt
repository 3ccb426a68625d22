-- ===== src/Bag/Replay.antt =====
-- Recording and playing: what was recorded is what is played.
use com_ipc.Common.{
  ℕ, ◌+◌, ◌^◌, ◌<◌, ◌≡◌, refl, ap, ◌∙◌, List, [], ◌∷◌, ◌++◌, false, not, some, none, if◌then◌else◌,
  length, take, drop, take-append, drop-append, arith, append_assoc, length-append, Bool-cases, inl,
  inr, fun_ext, Option, ltb, ◌==◌,
}
use com_ipc.Common.Int.{pos}
use com_ipc.Common.Bytes.{le_bytes, of_le, of_le-take, drop-le_bytes, length-le_bytes}
use com_ipc.CString.{same_chars}
use com_ipc.Pool.{Pool, read}
use com_ipc.Topic.{Shm}
use com_ipc.Subscriber.{Subscriber, Reply, LoanedMessage, receive_loaned, done, failed, blocked}
use com_ipc.Bag.{
  file_header, frame, RecordRound, write_received, then_play, record_loop, do_record, PlayRound,
  Stop, ended, cut, delay, play_frame, play_loop, playing, do_play,
}

-- The frames of a recording: the time and the data of each message that was received.
abbrev pub take_received :
    (now : ℕ)
    → Pool
    → (Subscriber → List (ℕ × List ℕ))
    → Reply (Subscriber × Option LoanedMessage)
    → List (ℕ × List ℕ)
take_received now pool rest (done (sub, some m)) = (now, read m.pointer m.size pool) ∷ rest sub
take_received now pool rest (done (sub, none)) = rest sub
take_received now pool rest (failed e) = []
take_received now pool rest blocked = []

unfoldable pub recorded : Subscriber → List RecordRound → List (ℕ × List ℕ)
recorded sub [] = []
recorded sub (r ∷ rounds) =
    if r.running
    then take_received r.now r.scene.pool (λ sub'. recorded sub' rounds)
        (receive_loaned sub (pos 1000) r.scene)
    else []

-- Playing a list of frames: each one is published whole, after its delay.
unfoldable pub replay : List PlayRound → (prev : ℕ) → List (ℕ × List ℕ) → Shm → Stop × List ℕ × Shm
replay [] prev fs s = (cut, [], s)
replay (r ∷ rounds) prev [] s = (ended, [], s)
replay (r ∷ rounds) prev ((timestamp, bytes) ∷ fs) s =
    if not r.running
    then (ended, [], s)
    else then_play (delay prev timestamp) (replay rounds timestamp fs)
        (play_frame r.call (length bytes) bytes s)

-- Times and sizes are 64-bit numbers.
abbrev pub AreFrames : List (ℕ × List ℕ) → Type 0
AreFrames [] = Unit {0}
AreFrames ((timestamp, bytes) ∷ fs) =
    (timestamp < 256 ^ 8) × (length bytes < 256 ^ 8) × AreFrames fs

abbrev encode : List (ℕ × List ℕ) → List ℕ
encode [] = []
encode ((timestamp, bytes) ∷ fs) = frame timestamp bytes ++ encode fs

write_received-encode :
    (now : ℕ) (pool : Pool) (f : Subscriber → List ℕ) (g : Subscriber → List (ℕ × List ℕ))
    → (x : Reply (Subscriber × Option LoanedMessage))
    → ((sub : Subscriber) → f sub ≡ encode (g sub))
    → write_received now pool f x ≡ encode (take_received now pool g x)
write_received-encode now pool f g (done (sub, some m)) e =
    ap (λ l. frame now (read m.pointer m.size pool) ++ l) (e sub)
write_received-encode now pool f g (done (sub, none)) e = e sub
write_received-encode now pool f g (failed err) e = refl
write_received-encode now pool f g blocked e = refl

record_loop-recorded :
    (sub : Subscriber) (rounds : List RecordRound)
    → record_loop sub rounds ≡ encode (recorded sub rounds)
unfolding record_loop recorded
record_loop-recorded sub [] = refl
record_loop-recorded sub (r ∷ rounds) = elim (Bool-cases r.running) [
  | inr e ↦ rw e refl
  | inl e ↦ rw e (
      write_received-encode r.now r.scene.pool _ _ (receive_loaned sub (pos 1000) r.scene)
        (λ sub'. record_loop-recorded sub' rounds))
]

length-frame :
    (now : ℕ) (bytes rest : List ℕ)
    → length (frame now bytes ++ rest) ≡ 16 + length bytes + length rest
unfolding frame
length-frame now bytes rest = omega (
  arith,
  length-append {0} (le_bytes 8 now ++ (le_bytes 8 (length bytes) ++ bytes)) rest,
  length-append {0} (le_bytes 8 now) (le_bytes 8 (length bytes) ++ bytes),
  length-append {0} (le_bytes 8 (length bytes)) bytes,
  length-le_bytes,
)

-- A frame at the start of the rest of a file is read back.
read-frame :
    (now : ℕ) (bytes rest : List ℕ)
    → now < 256 ^ 8
    → length bytes < 256 ^ 8
    → let file = frame now bytes ++ rest in
      (of_le (take 8 file) ≡ now)
      × (of_le (take 8 (drop 8 file)) ≡ length bytes)
      × (drop 8 (drop 8 file) ≡ bytes ++ rest)
unfolding frame
read-frame now bytes rest a b =
    let whole : frame now bytes ++ rest
        ≡ le_bytes 8 now ++ (le_bytes 8 (length bytes) ++ (bytes ++ rest)) =
      simp (append_assoc) in
    (
      rw whole (of_le-take 8 now (le_bytes 8 (length bytes) ++ (bytes ++ rest)) a),
      simp (append_assoc, drop-le_bytes) (of_le-take 8 (length bytes) (bytes ++ rest) b),
      simp (append_assoc, drop-le_bytes),
    )

play_loop-encode :
    (rounds : List PlayRound) (prev : ℕ) (fs : List (ℕ × List ℕ)) (s : Shm)
    → AreFrames fs
    → play_loop rounds prev (encode fs) s ≡ replay rounds prev fs s
unfolding play_loop replay
play_loop-encode [] prev fs s v = refl
play_loop-encode (r ∷ rounds) prev [] s v = ground arith
play_loop-encode (r ∷ rounds) prev ((timestamp, bytes) ∷ fs) s v =
    let file = frame timestamp bytes ++ encode fs in
    let (t, n, rest) = read-frame timestamp bytes (encode fs) v.0 v.1 in
    let long = length-frame timestamp bytes (encode fs) in
    let some_left : (length file == 0) ≡ false = ground arith in
    let whole : ltb (length file) 16 ≡ false = ground arith in
    let first = take-append (length bytes) bytes (encode fs) refl in
    let after = drop-append (length bytes) bytes (encode fs) refl in
    let next : play_loop rounds timestamp (encode fs) ≡ replay rounds timestamp fs =
      fun_ext (λ s'. play_loop-encode rounds timestamp fs s' v.2) in
    rw (some_left, whole, t, n, rest, first, after, next)
      (elim (Bool-cases r.running) [ inl e ↦ rw e refl | inr e ↦ rw e refl ])

-- The file that a recording writes is a valid one, and playing it plays its topic and, one by one and
-- whole, the frames that were recorded, with the delays of their times, as long as times, sizes and
-- the name's length are 64-bit numbers.
pub do_play-do_record :
    (topic : List ℕ) (sub : Subscriber) (rounds : List RecordRound) (plays : List PlayRound)
    (s : Shm)
    → length topic < 256 ^ 8
    → AreFrames (recorded sub rounds)
    → do_play plays (do_record topic sub rounds) s
      ≡ playing topic (replay plays 0 (recorded sub rounds) s)
unfolding do_play do_record file_header same_chars
do_play-do_record topic sub rounds plays s short v =
    let loop = record_loop sub rounds in
    let whole : (le_bytes 8 (length topic) ++ topic) ++ loop
        ≡ le_bytes 8 (length topic) ++ (topic ++ loop) =
      append_assoc (le_bytes 8 (length topic)) topic loop in
    let n = of_le-take 8 (length topic) (topic ++ loop) short in
    let rest = drop-le_bytes 8 (length topic) (topic ++ loop) in
    let long : length (le_bytes 8 (length topic) ++ (topic ++ loop)) ≡ 8 + length (topic ++ loop) =
      length-append (le_bytes 8 (length topic)) (topic ++ loop)
      ∙ ap (λ k. k + length (topic ++ loop)) (length-le_bytes 8 (length topic)) in
    let room : ltb (length (topic ++ loop)) (length topic) ≡ false =
      ground (arith, length-append topic loop) in
    let first = take-append (length topic) topic loop refl in
    let after = drop-append (length topic) topic loop refl in
    let played : play_loop plays 0 loop s ≡ replay plays 0 (recorded sub rounds) s =
      ap (λ l. play_loop plays 0 l s) (record_loop-recorded sub rounds)
      ∙ play_loop-encode plays 0 (recorded sub rounds) s v in
    rw (whole, n, rest, long, room, first, after, played) (ground arith)
