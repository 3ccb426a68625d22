-- ===== src/Checks/Recorder.antt =====
-- A recording of one message and its playback.
use com_ipc.Common.{ℕ, ◌≡◌, refl, List, [], ◌∷◌, true, false, ok, lock_robust, arith}
use com_ipc.Pool.{init, deposit}
use com_ipc.Topic.{Shm, publish_raw, enqueue}
use com_ipc.Subscriber.{Subscriber, receive_loaned}
use com_ipc.Bag.{RecordRound, PlayRound, do_record, do_play, playing, bad_format}
use com_ipc.Bag.Replay.{recorded, replay, do_play-do_record}
use com_ipc.Checks.Fixtures.{fresh, quiet}

abbrev published : Shm
published = (publish_raw quiet (1 ∷ 2 ∷ []) 4 fresh).1

abbrev listener : Subscriber
listener = record { mapped = true; last_seq = 0 }

abbrev first_round : RecordRound
first_round = record {
  running = true;
  scene = record {
    shutdown = false;
    topic = published.topic;
    lock = 0;
    wakes = [];
    pool = published.pool;
  };
  now = 77;
}

abbrev play_round : PlayRound
play_round = record { running = true; call = quiet }

wrong_magic : do_play [] (67 ∷ 66 ∷ 65 ∷ 72 ∷ []) fresh ≡ bad_format
unfolding do_play com_ipc.CString.same_chars
wrong_magic = refl

one_frame : recorded listener (first_round ∷ []) ≡ (77, 1 ∷ 2 ∷ []) ∷ []
unfolding recorded receive_loaned publish_raw deposit enqueue lock_robust com_ipc.Common.Bytes.load
    com_ipc.Common.Bytes.store com_ipc.Pool.write
one_frame = refl

do_play-do_record_example :
    do_play (play_round ∷ []) (do_record (99 ∷ []) listener (first_round ∷ [])) fresh
    ≡ playing (99 ∷ []) (replay (play_round ∷ []) 0 (recorded listener (first_round ∷ [])) fresh)
unfolding recorded receive_loaned publish_raw deposit enqueue lock_robust com_ipc.Common.Bytes.load
    com_ipc.Common.Bytes.store com_ipc.Pool.write
do_play-do_record_example =
    do_play-do_record (99 ∷ []) listener (first_round ∷ []) (play_round ∷ []) fresh (omega arith)
      (omega arith, omega arith, tt)
