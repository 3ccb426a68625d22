-- ===== src/Deadline.antt =====
-- The absolute time to which `pthread_cond_timedwait` waits, as receiveRaw and receiveLoaned of
-- src/subscriber.cpp compute it, in a branch for time-outs above 0.
use com_ipc.Common.{ℕ, ◌+◌, ◌-◌, ◌*◌, ◌/◌, ◌%◌, ◌<◌, ◌≡◌, leb, if◌then◌else◌, arith}

-- `struct timespec`
pub record Timespec : Type 0 where
  pub tv_sec : ℕ
  pub tv_nsec : ℕ

abbrev pub carry : Timespec → Timespec
carry ts =
    if leb 1000000000 ts.tv_nsec
    then record { tv_sec = ts.tv_sec + 1; tv_nsec = ts.tv_nsec - 1000000000 }
    else ts

-- The clock's reading plus a timeout of `timeout_ms` milliseconds.
pub deadline : ℕ → Timespec → Timespec
deadline timeout_ms now = carry (record {
  tv_sec = now.tv_sec + timeout_ms / 1000;
  tv_nsec = now.tv_nsec + timeout_ms % 1000 * 1000000;
})

-- The nanoseconds since the epoch.
abbrev pub nanoseconds : Timespec → ℕ
nanoseconds ts = ts.tv_sec * 1000000000 + ts.tv_nsec

-- The deadline lies exactly the timeout after a clock reading with less than a second of
-- nanoseconds, and has less than a second of nanoseconds itself, as `timedwait` demands.
pub deadline_lem :
    (timeout_ms : ℕ) (now : Timespec)
    → now.tv_nsec < 1000000000
    → (nanoseconds (deadline timeout_ms now) ≡ nanoseconds now + timeout_ms * 1000000)
      × ((deadline timeout_ms now).tv_nsec < 1000000000)
unfolding deadline
deadline_lem timeout_ms now h = ground arith
