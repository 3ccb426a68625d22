-- ===== src/Checks/Tools.antt =====
-- The meters and the hex dump of com_topic, and Python's publish.
use com_ipc.Common.{
  ℕ, ◌-◌, ◌*◌, ◌/◌, ◌≡◌, refl, List, [], ◌∷◌, ◌++◌, true, false, lock_robust, leb, ltb, arith,
}
use com_ipc.Common.Bytes.{load}
use com_ipc.Types.{TopicShm, msg_custom, new_topic}
use com_ipc.Pool.{init, read}
use com_ipc.Topic.{enqueue, publish_raw}
use com_ipc.Subscriber.{Scene, LoanedMessage, receive_loaned}
use com_ipc.Monitor.{Double, MeterRound, Meter, hz_loop}
use com_ipc.Monitor.Windows.{messages, counted, size_sum}
use com_ipc.Monitor.Dump.{dump, undump, ArePrintable, undump-dump}
use com_ipc.Binding.{BufferInfo, discard, publish}
use com_ipc.Binding.Publish.{publish-publish_raw}
use com_ipc.Checks.Fixtures.{fresh, newcomer, quiet}

-- Times and rates in milliseconds and in whole numbers.
abbrev coarse : Double ℕ ℕ
coarse = record {
  elapsed_sec = λ last now. now - last;
  is_full = λ w. leb 1000 w;
  rate = λ n w. n * 1000 / w;
  kbps = λ n w. n / w;
  mbps = λ w. w / 1024;
  is_large = λ w. ltb 1 w;
}

abbrev scene_at : TopicShm → Scene
scene_at t = record { shutdown = false; topic = t; lock = 0; wakes = []; pool = init (λ a. 65) }

abbrev first_topic : TopicShm
first_topic = enqueue 5 4 0 9 new_topic

abbrev second_topic : TopicShm
second_topic = enqueue 6 4 8 9 first_topic

-- Two messages, and 1.2 seconds pass.
abbrev rounds : List (MeterRound coarse)
rounds =
    record { running = true; scene = scene_at first_topic; now = 100 }
    ∷ record { running = true; scene = scene_at second_topic; now = 1300 }
    ∷ []

abbrev started : Meter coarse
started = record { last_calc_time = 0; msg_count = 0; is_first_msg = true }

-- The first message starts the clock, the second one is a window.
one_window : counted coarse (hz_loop coarse rounds newcomer started).0 ≡ 1
unfolding hz_loop receive_loaned enqueue lock_robust
one_window = refl

received : size_sum coarse (messages coarse rounds newcomer) ≡ 11
unfolding messages receive_loaned enqueue lock_robust
received = refl

abbrev message : LoanedMessage
message = record { pointer = 0; size = 2; seq = 1 }

-- "41 41  | AA" and a newline.
dumped :
    dump (init (λ a. 65)) message ≡ 52 ∷ 49 ∷ 32 ∷ 52 ∷ 49 ∷ 32 ∷ 32 ∷ 124 ∷ 32 ∷ 65 ∷ 65 ∷ 10 ∷ []
unfolding dump load
dumped = refl

undump-dump_example :
    (undump (dump (init (λ a. 65)) message) ≡ read 0 2 (init (λ a. 65)))
    × ((line : List ℕ) × (dump (init (λ a. 65)) message ≡ line ++ b'\n' ∷ []) × ArePrintable line)
undump-dump_example = undump-dump (init (λ a. 65)) message (λ a. omega arith)

-- Two numbers of two bytes each.
abbrev array : BufferInfo
array = record { bytes = 1 ∷ 0 ∷ 2 ∷ 0 ∷ []; itemsize = 2; size = 2 }

publish-publish_raw_example :
    publish quiet array fresh ≡ discard (publish_raw quiet (1 ∷ 0 ∷ []) msg_custom fresh)
publish-publish_raw_example =
    publish-publish_raw quiet array fresh refl refl (omega arith) (omega arith) (omega arith)
