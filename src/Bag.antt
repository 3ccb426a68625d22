-- ===== src/Bag.antt =====
-- The recorder: do_record and do_play of tools/com_bag.cpp, on the bytes of the file. A round of a
-- loop has the environment's part of it; where the rounds end, the loop is still running.
pub mod Replay
use com_ipc.Common.{
  ℕ, ◌+◌, ◌-◌, ◌%◌, ◌^◌, List, [], ◌∷◌, ◌++◌, Bool, not, ◌&&◌, ◌||◌, Option, some, none, Result,
  Error, ok, throw, if◌then◌else◌, leb, ltb, ◌==◌, length, take, drop, replicate,
}
use com_ipc.Common.Int.{pos}
use com_ipc.Common.Bytes.{le_bytes, of_le}
use com_ipc.CString.{same_chars}
use com_ipc.Types.{msg_custom}
use com_ipc.Pool.{Pool, read, write}
use com_ipc.Topic.{Shm, Call, loan_raw, publish_loaned}
use com_ipc.Subscriber.{
  Subscriber, Scene, Reply, LoanedMessage, receive_loaned, done, failed, blocked,
}

abbrev pub magic : List ℕ
magic = b'C' ∷ b'B' ∷ b'A' ∷ b'G' ∷ []

-- Magic, the length of the topic's name as a `size_t`, and the name.
unfoldable pub file_header : List ℕ → List ℕ
file_header topic = magic ++ (le_bytes 8 (length topic) ++ topic)

-- A frame: time, size and data.
unfoldable pub frame : (now : ℕ) → List ℕ → List ℕ
frame now bytes = le_bytes 8 now ++ (le_bytes 8 (length bytes) ++ bytes)

-- What a round of recording finds; the scene's pool is also the one that the data is written from.
pub record RecordRound : Type 0 where
  pub running : Bool
  pub scene : Scene
  pub now : ℕ

-- What a round writes for the outcome of `receiveLoaned`, before the rest of the recording.
abbrev pub write_received :
    (now : ℕ) → Pool → (Subscriber → List ℕ) → Reply (Subscriber × Option LoanedMessage) → List ℕ
write_received now pool rest (done (sub, some m)) =
    frame now (read m.pointer m.size pool) ++ rest sub
write_received now pool rest (done (sub, none)) = rest sub
write_received now pool rest (failed e) = []
write_received now pool rest blocked = []

-- The frames that the loop of `do_record` writes.
unfoldable pub record_loop : Subscriber → List RecordRound → List ℕ
record_loop sub [] = []
record_loop sub (r ∷ rounds) =
    if r.running
    then write_received r.now r.scene.pool (λ sub'. record_loop sub' rounds)
        (receive_loaned sub (pos 1000) r.scene)
    else []

-- `do_record`: the bytes of the file.
unfoldable pub do_record : (topic : List ℕ) → Subscriber → List RecordRound → List ℕ
do_record topic sub rounds = file_header topic ++ record_loop sub rounds

-- What a round of playing finds.
pub record PlayRound : Type 0 where
  pub running : Bool
  pub call : Call

-- How the loop of `do_play` is left.
pub data Stop : Type 0 where
  ended : Stop
  cut : Stop
  threw : Error → Stop

-- The microseconds that it sleeps before a frame: none before the first and none if time went back.
abbrev pub delay : (prev timestamp : ℕ) → ℕ
delay prev timestamp =
    let delay_us = (timestamp + 2 ^ 64 - prev) % 2 ^ 64 in
    if prev == 0 then 0 else if ltb delay_us (2 ^ 63) then delay_us else 0

-- Loan a block, read the data of the frame into it, and publish it. At the end of the file the data
-- may be shorter than `size`; the block is published all the same.
unfoldable pub play_frame : Call → (size : ℕ) → (data_read : List ℕ) → Shm → Result Bool × Shm
play_frame c size data_read s =
    let (r, loaned) = loan_raw c size s in
    elim r [
      | throw e ↦ (throw e, loaned)
      | ok ptr ↦
          publish_loaned c ptr size msg_custom
            (record loaned { pool = write ptr data_read loaned.pool })
    ]

-- A round's delay and frame, before the rest of the playback.
abbrev pub then_play :
    (slept : ℕ) → (Shm → Stop × List ℕ × Shm) → Result Bool × Shm → Stop × List ℕ × Shm
then_play slept rest (throw e, s) = (threw e, slept ∷ [], s)
then_play slept rest (ok _, s) = let (stop, delays, s') = rest s in (stop, slept ∷ delays, s')

-- The loop of `do_play`: how it ends, the delays, and the shared memory.
unfoldable pub play_loop : List PlayRound → (prev : ℕ) → (file : List ℕ) → Shm → Stop × List ℕ × Shm
play_loop [] prev file s = (cut, [], s)
play_loop (r ∷ rounds) prev file s =
    let timestamp = of_le (take 8 file) in
    let data_size = of_le (take 8 (drop 8 file)) in
    let rest = drop 8 (drop 8 file) in
    if (not r.running || (length file == 0)) || ltb (length file) 16
    then (ended, [], s)
    else then_play (delay prev timestamp) (play_loop rounds timestamp (drop data_size rest))
        (play_frame r.call data_size (take data_size rest) s)

-- `do_play`: it refuses the file, reads variables that no byte of the file was read into, or plays
-- to a topic.
pub data Play : Type 0 where
  bad_format : Play
  unspecified : Play
  playing : (topic : List ℕ) → Stop × List ℕ × Shm → Play

unfoldable pub do_play : List PlayRound → (file : List ℕ) → Shm → Play
do_play rounds file s =
    let topic_len = of_le (take 8 (drop 4 file)) in
    let rest = drop 8 (drop 4 file) in
    if ltb (length file) 4
    then unspecified
    else if not (same_chars 4 (take 4 file) magic)
    then bad_format
    else if ltb (length file) 12
    then unspecified
    else if ltb (length rest) topic_len
    then playing (rest ++ replicate (topic_len - length rest) 0) (ended, [], s)
    else playing (take topic_len rest) (play_loop rounds 0 (drop topic_len rest) s)
