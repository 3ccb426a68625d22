-- ===== src/Checks/Gateway.antt =====
-- The gateway: a message over TCP, cut into other pieces on the way, and the two formats.
use com_ipc.Common.{
  ℕ, zero, suc, ◌<◌, ◌≡◌, refl, List, [], ◌∷◌, ◌++◌, true, false, arith, replicate, length, Option,
  none, some, ap, ◌∙◌,
}
use com_ipc.Router.{Round, returned, recv_all}
use com_ipc.Router.Transfer.{AreLive}
use com_ipc.Router.Gateway.{
  ImportRound, invalid_magic, importing, frame_parts, send_parts, do_import,
}
use com_ipc.Common.{replicate}
use com_ipc.Common.Bytes.{le_bytes}
use com_ipc.Topic.Ring.{new_topic-IsValid, IsValid-IsUsable}
use com_ipc.Router.Gateway.{import_magic}
use com_ipc.Router.Peers.{ImportIsGuarded, do_import-IsGuarded}
use com_ipc.Router.Import.{import_stream, import_all, do_import-stream, do_import-send_parts}
use com_ipc.Router.Sockets.{Streams, accepted, after_accept, open_listen, open_import, end_import}
use com_ipc.Router.Descriptors.{Table, closed, ends, do_import-open_fds}
use com_ipc.Checks.Fixtures.{fresh, quiet}

abbrev word : List ℕ
word = 72 ∷ 89 ∷ 66 ∷ 82 ∷ []

abbrev pieces : ℕ → ℕ → List Round
pieces chunk n = replicate n (record { running = true; chunk = chunk })

pieces-AreLive : (chunk n : ℕ) → 0 < chunk → AreLive (pieces chunk n)
pieces-AreLive chunk zero h = tt
pieces-AreLive chunk (suc n) h = (refl, h, pieces-AreLive chunk n h)

abbrev by_three : List Round
by_three = pieces 3 40

abbrev by_one : List Round
by_one = pieces 1 40

three : AreLive by_three
three = pieces-AreLive 3 40 (omega arith)

one : AreLive by_one
one = pieces-AreLive 1 40 (omega arith)

abbrev turns : List ImportRound
turns = replicate 2 (record { running = true; call = quiet })

-- An interrupted `recv_all` returns true with a part of the bytes.
interrupted :
    (recv_all
      (record { running = true; chunk = 1 } ∷ record { running = false; chunk = 1 } ∷ [])
      word
      4).outcome
    ≡ returned true
unfolding recv_all
interrupted = refl

do_import-stream_example :
    do_import turns by_three (import_stream (116 ∷ []) ((7 ∷ 8 ∷ []) ∷ [])) fresh
    ≡ importing (116 ∷ []) (import_all turns ((7 ∷ 8 ∷ []) ∷ []) fresh)
unfolding com_ipc.Common.Bytes.le_bytes
do_import-stream_example =
    do_import-stream turns by_three (116 ∷ []) ((7 ∷ 8 ∷ []) ∷ []) fresh three (omega arith)
      (omega arith, tt) (omega arith)

do_import-send_parts_example :
    do_import turns by_one
      ((send_parts (frame_parts (129 ∷ []) (7 ∷ [])) by_three).stream ++ [])
      fresh
    ≡ invalid_magic
unfolding com_ipc.Common.Bytes.le_bytes
do_import-send_parts_example =
    do_import-send_parts by_three by_one turns (129 ∷ []) (7 ∷ []) [] fresh three one (omega arith)
      (omega arith)

-- A frame of 2 ^ 64 - 1 bytes, and one of 2 that is cut off.
abbrev hostile : List ℕ
hostile =
    import_magic
    ++ (le_bytes 8 1 ++ (116 ∷ (le_bytes 8 2 ++ (7 ∷ 8 ∷ (replicate 8 255 ++ 9 ∷ [])))))

do_import-IsGuarded_example :
    ImportIsGuarded (fresh.pool.bytes) (do_import turns by_one hostile fresh)
do_import-IsGuarded_example =
    do_import-IsGuarded turns by_one hostile fresh
      (record { pool = omega arith; topic = (IsValid-IsUsable new_topic-IsValid, omega arith) })

abbrev close_in : Option ℕ → List ℕ → List ℕ
close_in none fds = fds
close_in (some fd) fds = closed fd fds

imported : ends (do_import turns by_one (import_stream (116 ∷ []) []) fresh) ≡ true
unfolding com_ipc.Common.Bytes.le_bytes import_all
imported =
    ap ends (do_import-stream turns by_one (116 ∷ []) [] fresh one (omega arith) tt (omega arith))
    ∙ refl

-- A kernel with room for descriptors: its state is the table of those that are open.
abbrev numbering : Streams
numbering = record {
  Os = List ℕ;
  socket = λ fds. (some (length fds), length fds ∷ fds);
  set_reuse = λ s fds. (true, fds);
  bind = λ s a fds. (true, fds);
  listen = λ s n fds. (true, fds);
  accept = λ s fds. (some (length fds), length fds ∷ fds);
  connect = λ s a fds. (true, fds);
  close = λ s fds. close_in s fds;
  inet_pton = λ text. none;
}

abbrev numbered : Table numbering
numbered = record {
  open_fds = λ fds. fds;
  of_socket = λ os. refl;
  of_accept = λ s os. refl;
  of_reuse = λ s os. refl;
  of_bind = λ s a os. refl;
  of_listen = λ s n os. refl;
  of_connect = λ s a os. refl;
  close_some = λ fd os. refl;
  close_none = λ os. refl;
}

-- The manager and the memory pool get the numbers 5 and 6.
do_import-open_fds_example :
    end_import numbering
      (accepted (some 3) 4)
      (do_import turns by_one (import_stream (116 ∷ []) []) fresh)
      (6 ∷ 5 ∷ 4 ∷ 3 ∷ 2 ∷ 1 ∷ 0 ∷ [])
    ≡ 6 ∷ 5 ∷ 2 ∷ 1 ∷ 0 ∷ []
unfolding open_import open_listen after_accept
do_import-open_fds_example =
    do_import-open_fds numbering numbered 9000 (2 ∷ 1 ∷ 0 ∷ []) (6 ∷ 5 ∷ 4 ∷ 3 ∷ 2 ∷ 1 ∷ 0 ∷ [])
      (6 ∷ 5 ∷ []) turns by_one (import_stream (116 ∷ []) []) fresh
      ((refl, (refl, tt)), (refl, (refl, tt))) refl imported
