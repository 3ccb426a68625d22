-- ===== src/Action/Wire.antt =====
-- The packed headers of actions, written and read back.
use com_ipc.Common.{
  ℕ, ◌+◌, ◌^◌, ◌≤◌, ◌<◌, ◌≡◌, refl, sym, ap, ◌∙◌, List, [], ◌∷◌, ◌++◌, true, leb, length, take,
  arith, some, length-append,
}
use com_ipc.Common.Bytes.{
  le_bytes, of_le, length-le_bytes, of_le-le_bytes, of_le-take, drop-le_bytes,
}
use com_ipc.Types.{msg_custom, max_msg_size}
use com_ipc.Subscriber.{Frame}
use com_ipc.Action.{goal_fixed, report_fixed, goal_packet, report_packet, read_report, report_of}
use com_ipc.Action.Server.{ActionServer, on_goal, accept_goal}

pub length-goal_packet :
    (id now : ℕ) (bytes : List ℕ) → length (goal_packet id now bytes) ≡ goal_fixed + length bytes
unfolding goal_packet
length-goal_packet id now bytes = omega (
  arith,
  length-append {0} (le_bytes 4 id) (le_bytes 8 now ++ (le_bytes 4 (length bytes) ++ bytes)),
  length-append {0} (le_bytes 8 now) (le_bytes 4 (length bytes) ++ bytes),
  length-append {0} (le_bytes 4 (length bytes)) bytes,
  length-le_bytes,
)

pub length-report_packet :
    (id status now : ℕ) (bytes : List ℕ)
    → length (report_packet id status now bytes) ≡ report_fixed + length bytes
unfolding report_packet
length-report_packet id status now bytes = omega (
  arith,
  length-append {0} (le_bytes 4 id)
      (le_bytes 4 status ++ (le_bytes 8 now ++ (le_bytes 4 (length bytes) ++ bytes))),
  length-append {0} (le_bytes 4 status) (le_bytes 8 now ++ (le_bytes 4 (length bytes) ++ bytes)),
  length-append {0} (le_bytes 8 now) (le_bytes 4 (length bytes) ++ bytes),
  length-append {0} (le_bytes 4 (length bytes)) bytes,
  length-le_bytes,
)

-- The fields of a report, all in their ranges, are read back.
pub read_report-report_packet :
    (id status now : ℕ) (bytes : List ℕ)
    → id < 256 ^ 4
    → status < 256 ^ 4
    → now < 256 ^ 8
    → length bytes < 256 ^ 4
    → read_report (report_packet id status now bytes) ≡ (record {
      goal_id = id;
      status = status;
      timestamp = now;
      data_size = length bytes;
      bytes = bytes;
    })
unfolding read_report report_packet
read_report-report_packet id status now bytes a b c d = simp (drop-le_bytes) (λ i. record {
  goal_id =
      of_le-take 4 id
        (le_bytes 4 status ++ (le_bytes 8 now ++ (le_bytes 4 (length bytes) ++ bytes))) a i;
  status = of_le-take 4 status (le_bytes 8 now ++ (le_bytes 4 (length bytes) ++ bytes)) b i;
  timestamp = of_le-take 8 now (le_bytes 4 (length bytes) ++ bytes) c i;
  data_size = of_le-take 4 (length bytes) bytes d i;
  bytes = bytes;
})

pub take-all : (bytes : List ℕ) → take (length bytes) bytes ≡ bytes
take-all [] = refl
take-all (b ∷ bytes) = ap (λ l. b ∷ l) (take-all bytes)

pub of_le-take_all : (n x : ℕ) → x < 256 ^ n → of_le (take n (le_bytes n x)) ≡ x
of_le-take_all n x h =
    let all : take n (le_bytes n x) ≡ le_bytes n x =
      ap (λ k. take k (le_bytes n x)) (sym (length-le_bytes n x)) ∙ take-all (le_bytes n x) in
    rw all (of_le-le_bytes n x h)

-- A received report is taken for one, with all its fields, if it fits a message.
pub report_of-report_packet :
    (f : Frame) (id status now : ℕ) (bytes : List ℕ)
    → id < 256 ^ 4
    → status < 256 ^ 4
    → now < 256 ^ 8
    → length bytes ≤ max_msg_size
    → f.header.type ≡ msg_custom
    → f.header.data_size ≡ length (report_packet id status now bytes)
    → f.payload ≡ report_packet id status now bytes
    → report_of f
      ≡ some (record {
        goal_id = id;
        status = status;
        timestamp = now;
        data_size = length bytes;
        bytes = bytes;
      })
unfolding report_of
report_of-report_packet f id status now bytes a b c d t n p =
    let read = read_report-report_packet id status now bytes a b c (omega arith) in
    let size : f.header.data_size ≡ report_fixed + length bytes =
      n ∙ length-report_packet id status now bytes in
    rw (t, p, size, read) (ground arith)

-- A received goal is accepted with its id and exactly its bytes.
pub on_goal-goal_packet :
    (f : Frame) (id now : ℕ) (bytes : List ℕ) (srv : ActionServer)
    → id < 256 ^ 4
    → length bytes < 256 ^ 4
    → f.header.type ≡ msg_custom
    → f.header.data_size ≡ length (goal_packet id now bytes)
    → f.payload ≡ goal_packet id now bytes
    → on_goal f srv ≡ accept_goal id bytes srv
unfolding on_goal goal_packet accept_goal
on_goal-goal_packet f id now bytes srv a b t n p =
    let size : f.header.data_size ≡ goal_fixed + length bytes =
      n ∙ length-goal_packet id now bytes in
    let read_id = of_le-take 4 id (le_bytes 8 now ++ (le_bytes 4 (length bytes) ++ bytes)) a in
    let read_size = of_le-take 4 (length bytes) bytes b in
    let room : leb goal_fixed (goal_fixed + length bytes) ≡ true = ground arith in
    rw (t, p, size) (simp (drop-le_bytes, read_id, read_size, take-all bytes, room))
