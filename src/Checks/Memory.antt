-- ===== src/Checks/Memory.antt =====
-- The memory pool and the deadlines.
use com_ipc.Common.{
  ℕ, ◌≡◌, refl, List, [], ◌∷◌, ok, throw, size_exceeds_pool, not_from_pool, owner_dead, lock_robust,
  arith, length,
}
use com_ipc.Pool.{Pool, init, align8, allocate, get_offset, deposit, deposits, read}
use com_ipc.Pool.Bounds.{IsValid}
use com_ipc.Pool.Survival.{deposit_survives}

abbrev blank : Pool
blank = init (λ a. 0)

-- Eight bytes are left before the end.
abbrev nearly_full : Pool
nearly_full = record { head_offset = 104857592; bytes = λ a. 0 }

abbrev abc : List ℕ
abc = 97 ∷ 98 ∷ 99 ∷ []

nearly_full-IsValid : IsValid nearly_full
nearly_full-IsValid = omega arith

aligned : align8 13 ≡ 16
aligned = refl

wraps : (allocate 0 9 nearly_full).0 ≡ ok 0
unfolding allocate lock_robust
wraps = refl

fills : (allocate owner_dead 8 nearly_full).0 ≡ ok 104857592
unfolding allocate lock_robust
fills = refl

too_large : (allocate 0 104857601 blank).0 ≡ throw size_exceeds_pool
unfolding allocate
too_large = refl

foreign : get_offset 104857600 ≡ throw not_from_pool
unfolding get_offset
foreign = refl

-- Two later messages go to the start of the pool.
deposit_survives_example :
    read 104857592
      (length abc)
      (deposits ((0, 1 ∷ 2 ∷ []) ∷ (0, 3 ∷ []) ∷ []) (deposit 0 abc nearly_full).1)
    ≡ abc
unfolding deposit lock_robust
deposit_survives_example =
    deposit_survives 0 abc ((0, 1 ∷ 2 ∷ []) ∷ (0, 3 ∷ []) ∷ []) 100 {p = nearly_full}
      {q = (deposit 0 abc nearly_full).1} {offset = 104857592} nearly_full-IsValid refl
      (omega arith) (omega arith) (omega arith)
