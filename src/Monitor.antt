-- ===== src/Monitor.antt =====
-- The diagnostics of tools/com_topic.cpp: do_hz, do_bw and do_echo on a subscriber. A round of a
-- loop is what `running` reads, the scene of the call and the clock behind it. Times and rates are
-- `double`s: a parameter with the operations that the code uses.
pub mod Windows
pub mod Dump
use com_ipc.Common.{
  ℕ, ◌+◌, ◌%◌, ◌^◌, List, [], ◌∷◌, Bool, true, false, not, Option, some, none, Error, if◌then◌else◌,
  ltb,
}
use com_ipc.Common.Int.{pos}
use com_ipc.Pool.{Pool}
use com_ipc.Subscriber
use com_ipc.Subscriber.{Subscriber, Scene, Reply, LoanedMessage, receive_loaned, done, failed}

-- The clock and the arithmetic on `double` that the two meters use.
pub record Double {ℓ} (Time : Type ℓ) (W : Type ℓ) : Type ℓ where
  -- `duration<double>(now - last).count()`
  pub elapsed_sec : (last now : Time) → W
  -- `elapsed_sec >= 1.0`
  pub is_full : W → Bool
  -- `msg_count / elapsed_sec`
  pub rate : ℕ → W → W
  -- `(total_bytes / 1024.0) / elapsed_sec`
  pub kbps : ℕ → W → W
  -- `kbps / 1024.0`, and `mbps > 1.0`
  pub mbps : W → W
  pub is_large : W → Bool

-- How a loop is left: by `running`, by an exception, or not yet.
pub data Stop : Type 0 where
  stopped : Stop
  threw : Error → Stop
  in_call : Stop

module _ {ℓ} {Time W : Type ℓ} (D : Double Time W) where
  open D use {elapsed_sec, is_full, rate, kbps, mbps, is_large}

  -- What a round finds: the clock is read behind the call.
  pub record MeterRound : Type ℓ where
    pub running : Bool
    pub scene : Scene
    pub now : Time

  -- The local variables of `do_hz`.
  pub record Meter : Type ℓ where
    pub last_calc_time : Time
    pub msg_count : ℕ
    pub is_first_msg : Bool

  -- A window that has ended, with the messages that it counted; it is printed if there are any.
  pub record Window : Type ℓ where
    pub count : ℕ
    pub hz : Option W

  -- Close the window if a second has passed.
  abbrev pub tick : Time → Meter → Option Window × Meter
  tick now m =
      let sec = elapsed_sec m.last_calc_time now in
      if m.is_first_msg
      then (none, m)
      else if is_full sec
      then (
        some (record {
          count = m.msg_count;
          hz = if ltb 0 m.msg_count then some (rate m.msg_count sec) else none;
        }),
        record m { msg_count = 0; last_calc_time = now },
      )
      else (none, m)

  -- A round of `do_hz` for the outcome of `receiveLoaned`: the first message starts the clock.
  abbrev pub meter_round : Time → (received : Bool) → Meter → Option Window × Meter
  meter_round now false m = tick now m
  meter_round now true m =
      if m.is_first_msg
      then (none, record m { last_calc_time = now; is_first_msg = false })
      else tick now (record m { msg_count = m.msg_count + 1 })

  abbrev pub after_tick {κ} :
      {M : Type ℓ} {V : Type κ}
      → (Subscriber → M → List V × Stop × M)
      → Subscriber
      → Option V × M
      → List V × Stop × M
  after_tick rest sub (none, m) = rest sub m
  after_tick rest sub (some v, m) = let (vs, stop, last) = rest sub m in (v ∷ vs, stop, last)

  -- A round of a meter for the outcome of `receiveLoaned`, before the rest of the loop.
  abbrev pub metered {κ} :
      {M : Type ℓ} {V : Type κ}
      → (Option LoanedMessage → M → Option V × M)
      → (Subscriber → M → List V × Stop × M)
      → M
      → Reply (Subscriber × Option LoanedMessage)
      → List V × Stop × M
  metered turn rest m (done (sub, msg)) = after_tick rest sub (turn msg m)
  metered turn rest m (failed e) = ([], threw e, m)
  metered turn rest m Subscriber.blocked = ([], in_call, m)

  abbrev pub is_message : Option LoanedMessage → Bool
  is_message none = false
  is_message (some msg) = true

  -- The loop of `do_hz`: the windows, how it is left, and the variables then.
  unfoldable pub hz_loop : List MeterRound → Subscriber → Meter → List Window × Stop × Meter
  hz_loop [] sub m = ([], in_call, m)
  hz_loop (r ∷ rs) sub m =
      if r.running
      then metered (λ msg. meter_round r.now (is_message msg)) (hz_loop rs) m
          (receive_loaned sub (pos 1000) r.scene)
      else ([], stopped, m)

  -- The local variables of `do_bw`.
  pub record Gauge : Type ℓ where
    pub last_calc_time : Time
    pub total_bytes : ℕ

  -- What a window of `do_bw` prints.
  pub data Printed : Type ℓ where
    no_messages : Printed
    mb_per_sec : W → Printed
    kb_per_sec : W → Printed

  pub record Volume : Type ℓ where
    pub bytes : ℕ
    pub printed : Printed

  abbrev pub report : ℕ → W → Printed
  report total sec =
      let k = kbps total sec in
      if ltb 0 total
      then (if is_large (mbps k) then mb_per_sec (mbps k) else kb_per_sec k)
      else no_messages

  -- A round of `do_bw`: `size_t` wraps.
  abbrev pub added : Option LoanedMessage → ℕ → ℕ
  added none total = total
  added (some msg) total = (total + msg.size) % 2 ^ 64

  abbrev pub gauge_round : Time → Option LoanedMessage → Gauge → Option Volume × Gauge
  gauge_round now msg g =
      let total = added msg g.total_bytes in
      let sec = elapsed_sec g.last_calc_time now in
      if is_full sec
      then (
        some (record { bytes = total; printed = report total sec }),
        record { last_calc_time = now; total_bytes = 0 },
      )
      else (none, record g { total_bytes = total })

  -- The loop of `do_bw`.
  unfoldable pub bw_loop : List MeterRound → Subscriber → Gauge → List Volume × Stop × Gauge
  bw_loop [] sub g = ([], in_call, g)
  bw_loop (r ∷ rs) sub g =
      if r.running
      then metered (gauge_round r.now) (bw_loop rs) g (receive_loaned sub (pos 1000) r.scene)
      else ([], stopped, g)
