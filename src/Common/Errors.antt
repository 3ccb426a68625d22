-- ===== src/Common/Errors.antt =====
-- Code that may throw: the C++ exceptions of the library, and lockRobust of
-- src/system_manager.cpp, which every locked section calls first.
use Prim.Native.Nat.{ℕ}
use mathlib.Core.Bool.{Bool, true, false}
use mathlib.Core.Path.{◌≡◌, refl}
use mathlib.Core.Logic.{◌⊎◌, inl, inr}
use com_ipc.Common.Tests.{◌==◌, if◌then◌else◌}

-- `std::runtime_error`, by the message.
pub data Error : Type 0 where
  size_exceeds_pool : Error
  not_from_pool : Error
  lock_failed : ℕ → Error
  publisher_failed : Error
  server_failed : Error
  mgr_open_failed : Error
  mgr_shm_open_failed : Error
  mgr_mmap_failed : Error
  pool_open_failed : Error
  pool_mmap_failed : Error

pub data Result {ℓ} (A : Type ℓ) : Type ℓ where
  ok : A → Result A
  throw : Error → Result A

-- To split on a computed result and keep the equation.
pub Result-cases {ℓ} :
    {A : Type ℓ} (r : Result A) → ((a : A) × (r ≡ ok a)) ⊎ ((e : Error) × (r ≡ throw e))
Result-cases (ok a) = inl (a, refl)
Result-cases (throw e) = inr (e, refl)

-- `EOWNERDEAD` and `ETIMEDOUT` of Linux.
abbrev pub owner_dead : ℕ
owner_dead = 130

abbrev pub timed_out : ℕ
timed_out = 110

-- `lockRobust`, over the value that `pthread_mutex_lock` returned: true if the lock was recovered
-- from an owner that died.
unfoldable pub lock_robust : ℕ → Result Bool
lock_robust ret =
    if ret == owner_dead then ok true else if ret == 0 then ok false else throw (lock_failed ret)
