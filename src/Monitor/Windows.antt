-- ===== src/Monitor/Windows.antt =====
-- The messages and bytes in the windows of do_hz and do_bw.
use com_ipc.Common.{
  ℕ, ◌+◌, ◌^◌, ◌<◌, ◌≡◌, List, [], ◌∷◌, Bool, true, false, Option, some, none, if◌then◌else◌, arith,
  Bool-cases, inl, inr, length, ◌∙◌,
}
use com_ipc.Common.Int.{pos}
use com_ipc.Subscriber
use com_ipc.Subscriber.{Subscriber, Reply, LoanedMessage, receive_loaned, done, failed}
use com_ipc.Monitor.{
  Double, Stop, after_tick, tick, MeterRound, Meter, Window, hz_loop, metered, meter_round,
  is_message, Gauge, Volume, bw_loop, gauge_round, added,
}

module _ {ℓ} {Time W : Type ℓ} (D : Double Time W) where
  open D use {is_full, elapsed_sec}

  -- The messages that a loop receives.
  abbrev pub then_messages :
      (Subscriber → List LoanedMessage)
      → Reply (Subscriber × Option LoanedMessage)
      → List LoanedMessage
  then_messages rest (done (sub, some msg)) = msg ∷ rest sub
  then_messages rest (done (sub, none)) = rest sub
  then_messages rest (failed e) = []
  then_messages rest Subscriber.blocked = []

  unfoldable pub messages : List (MeterRound D) → Subscriber → List LoanedMessage
  messages [] sub = []
  messages (r ∷ rs) sub =
      if r.running then then_messages (messages rs) (receive_loaned sub (pos 1000) r.scene) else []

  abbrev pub counted : List (Window D) → ℕ
  counted [] = 0
  counted (w ∷ ws) = w.count + counted ws

  -- The messages that a meter knows of: the first one is not counted.
  abbrev pub seen : Meter D → ℕ
  seen m = (if m.is_first_msg then 0 else 1) + m.msg_count

  -- The loop from any meter, where `n` messages are still received.
  abbrev Accounts : (Meter D → List (Window D) × Stop × Meter D) → ℕ → Type ℓ
  Accounts rest n = (k : Meter D) → counted (rest k).0 + seen (rest k).2 ≡ seen k + n

  abbrev meter : Time → ℕ → Bool → Meter D
  meter t c b = record { last_calc_time = t; msg_count = c; is_first_msg = b }

  hz_tick :
      (now t : Time) (c : ℕ) (b : Bool) (sub : Subscriber) (n : ℕ)
      → (rest : Subscriber → Meter D → List (Window D) × Stop × Meter D) → Accounts (rest sub) n
      → let r = after_tick D rest sub (tick D now (meter t c b)) in
        counted r.0 + seen r.2 ≡ seen (meter t c b) + n
  hz_tick now t c true sub n rest ih = ih (meter t c true)
  hz_tick now t c false sub n rest ih = elim (Bool-cases (is_full (elapsed_sec t now))) [
    | inl e ↦ rw e (omega (arith, ih (meter now 0 false)))
    | inr e ↦ rw e (ih (meter t c false))
  ]

  hz_round :
      (now : Time) (received : Bool) (t : Time) (c : ℕ) (b : Bool) (sub : Subscriber) (n : ℕ)
      → (rest : Subscriber → Meter D → List (Window D) × Stop × Meter D) → Accounts (rest sub) n
      → let r = after_tick D rest sub (meter_round D now received (meter t c b)) in
        counted r.0 + seen r.2 ≡ seen (meter t c b) + ((if received then 1 else 0) + n)
  hz_round now true t c true sub n rest ih = omega (arith, ih (meter now c false))
  hz_round now true t c false sub n rest ih =
      omega (arith, hz_tick now t (c + 1) false sub n rest ih)
  hz_round now false t c b sub n rest ih = hz_tick now t c b sub n rest ih ∙ omega arith

  hz_metered :
      (now : Time) (m : Meter D) (rest : Subscriber → Meter D → List (Window D) × Stop × Meter D)
      → (g : Subscriber → List LoanedMessage) (x : Reply (Subscriber × Option LoanedMessage))
      → ((sub : Subscriber) (k : Meter D)
          → counted (rest sub k).0 + seen (rest sub k).2 ≡ seen k + length (g sub))
      → let r = metered D (λ msg. meter_round D now (is_message D msg)) rest m x in
        counted r.0 + seen r.2 ≡ seen m + length (then_messages g x)
  hz_metered now m rest g (done (sub, none)) ih =
      hz_round now false m.last_calc_time m.msg_count m.is_first_msg sub (length (g sub)) rest
        (ih sub)
      ∙ omega arith
  hz_metered now m rest g (done (sub, some msg)) ih =
      hz_round now true m.last_calc_time m.msg_count m.is_first_msg sub (length (g sub)) rest
        (ih sub)
      ∙ omega arith
  hz_metered now m rest g (failed e) ih = omega arith
  hz_metered now m rest g Subscriber.blocked ih = omega arith

  -- `do_hz` counts each message that it receives in exactly one window, or has it in its counter when
  -- the loop is left; only the first message of all, which starts the clock, is in none.
  pub hz_loop_lem :
      (rs : List (MeterRound D)) (sub : Subscriber) (m : Meter D)
      → let (windows, _, last) = hz_loop D rs sub m in
        counted windows + seen last ≡ seen m + length (messages rs sub)
  unfolding hz_loop messages
  hz_loop_lem [] sub m = omega arith
  hz_loop_lem (r ∷ rs) sub m = elim (Bool-cases r.running) [
    | inr e ↦ rw e (omega arith)
    | inl e ↦ rw e (
        hz_metered r.now m (hz_loop D rs) (messages rs) (receive_loaned sub (pos 1000) r.scene)
          (hz_loop_lem rs))
  ]

  -- The bytes of messages, and those that windows of `do_bw` account for.
  abbrev pub size_sum : List LoanedMessage → ℕ
  size_sum [] = 0
  size_sum (msg ∷ msgs) = msg.size + size_sum msgs

  abbrev pub volume : List (Volume D) → ℕ
  volume [] = 0
  volume (v ∷ vs) = v.bytes + volume vs

  abbrev Measures : (Gauge D → List (Volume D) × Stop × Gauge D) → ℕ → Type ℓ
  Measures rest n =
      (k : Gauge D)
      → k.total_bytes + n < 2 ^ 64
      → volume (rest k).0 + (rest k).2.total_bytes ≡ k.total_bytes + n

  bw_round :
      (now : Time) (msg : Option LoanedMessage) (g : Gauge D) (sub : Subscriber) (s n : ℕ)
      → (rest : Subscriber → Gauge D → List (Volume D) × Stop × Gauge D)
      → added D msg g.total_bytes ≡ g.total_bytes + s
      → g.total_bytes + (s + n) < 2 ^ 64
      → Measures (rest sub) n
      → let r = after_tick D rest sub (gauge_round D now msg g) in
        volume r.0 + r.2.total_bytes ≡ g.total_bytes + (s + n)
  bw_round now msg g sub s n rest e h ih =
      elim (Bool-cases (is_full (elapsed_sec g.last_calc_time now))) [
        | inl full ↦
            rw (full, e) (omega (arith, ih (record { last_calc_time = now; total_bytes = 0 })))
        | inr part ↦ rw (part, e) (omega (arith, ih (record g { total_bytes = g.total_bytes + s })))
      ]

  bw_metered :
      (now : Time) (g : Gauge D) (rest : Subscriber → Gauge D → List (Volume D) × Stop × Gauge D)
      → (f : Subscriber → List LoanedMessage) (x : Reply (Subscriber × Option LoanedMessage))
      → g.total_bytes + size_sum (then_messages f x) < 2 ^ 64
      → ((sub : Subscriber) → Measures (rest sub) (size_sum (f sub)))
      → let r = metered D (gauge_round D now) rest g x in
        volume r.0 + r.2.total_bytes ≡ g.total_bytes + size_sum (then_messages f x)
  bw_metered now g rest f (done (sub, none)) h ih =
      bw_round now none g sub 0 (size_sum (f sub)) rest (omega arith) (omega arith) (ih sub)
      ∙ omega arith
  bw_metered now g rest f (done (sub, some msg)) h ih =
      bw_round now (some msg) g sub msg.size (size_sum (f sub)) rest (omega arith) h (ih sub)
  bw_metered now g rest f (failed e) h ih = omega arith
  bw_metered now g rest f Subscriber.blocked h ih = omega arith

  -- Where the sizes of all messages stay below 2^64 together, `do_bw` accounts for each byte that it
  -- receives exactly once: in one window, or in its counter when the loop is left.
  pub bw_loop_lem :
      (rs : List (MeterRound D)) (sub : Subscriber) (g : Gauge D)
      → g.total_bytes + size_sum (messages rs sub) < 2 ^ 64
      → let (windows, _, last) = bw_loop D rs sub g in
        volume windows + last.total_bytes ≡ g.total_bytes + size_sum (messages rs sub)
  unfolding bw_loop messages
  bw_loop_lem [] sub g h = omega arith
  bw_loop_lem (r ∷ rs) sub g h = elim (Bool-cases r.running) [
    | inr e ↦ rw e (omega arith)
    | inl e ↦ rw e (
        bw_metered r.now g (bw_loop D rs) (messages rs) (receive_loaned sub (pos 1000) r.scene)
          (rw e at h) (bw_loop_lem rs))
  ]
