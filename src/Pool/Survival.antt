-- ===== src/Pool/Survival.antt =====
-- How long a block keeps its bytes: the pool is a ring that is never freed, so a block is lost only
-- when later requests have gone once round.
use com_ipc.Common.{
  ℕ, ◌+◌, ◌%◌, ◌≤◌, ◌≡◌, refl, ◌∙◌, ◌⊎◌, inl, inr, List, [], ◌∷◌, ok, length, arith,
}
use com_ipc.Common.Bytes.{load, load-store_apart}
use com_ipc.Pool.{Pool, pool_size, align8, place, reserve, deposit, deposits, write, read}
use com_ipc.Pool.Bounds.{
  IsValid, align8_bounds, place_lem, reserve_bounds, deposit_cases, deposit_ok,
}

-- The room that a sequence of requests takes.
abbrev pub total : List (ℕ × List ℕ) → ℕ
total [] = 0
total ((_, bs) ∷ rest) = align8 (length bs) + total rest

-- No request is larger than `m` bytes.
abbrev pub AtMost : ℕ → List (ℕ × List ℕ) → Type 0
AtMost m [] = Unit {0}
AtMost m ((_, bs) ∷ rest) = (length bs ≤ m) × AtMost m rest

-- Where the cursor stands beside the block [o, o + n), with `t` bytes still to be asked for:
-- behind the block with the rest of the round to go, or before it with room for all of them.
abbrev Apart : ℕ → ℕ → ℕ → ℕ → Pool → Type 0
Apart o n m t p =
    ((o + n ≤ p.head_offset) × (p.head_offset + t + m ≤ pool_size + o))
    ⊎ ((p.head_offset + t ≤ o) × (o ≤ pool_size))

step_arith :
    (o n m t s h : ℕ)
    → h ≤ pool_size
    → s ≤ m
    → m ≤ pool_size
    → ((o + n ≤ h) × (h + (s + t) + m ≤ pool_size + o)) ⊎ ((h + (s + t) ≤ o) × (o ≤ pool_size))
    → ((o + n ≤ place h s) ⊎ (place h s + s ≤ o))
      × (((o + n ≤ place h s + s) × (place h s + s + t + m ≤ pool_size + o))
          ⊎ ((place h s + s + t ≤ o) × (o ≤ pool_size)))
step_arith o n m t s h v small fits a = ground (arith, place_lem h s)

-- One more request leaves the block's bytes alone, and the cursor apart from it.
reserve-Apart :
    (o n m t size : ℕ) (p : Pool)
    → IsValid p
    → size ≤ m
    → m ≤ pool_size
    → Apart o n (align8 m) (align8 size + t) p
    → let (offset, q) = reserve size p in
      ((o + n ≤ offset) ⊎ (offset + size ≤ o)) × Apart o n (align8 m) t q
unfolding reserve
reserve-Apart o n m t size p v small fits a = ground (
  arith,
  align8_bounds size,
  reserve_bounds size v,
  step_arith o n (align8 m) t (align8 size) p.head_offset v.inside (omega arith) (omega arith) a,
)

write-IsValid : (offset : ℕ) (bs : List ℕ) (p : Pool) → IsValid p → IsValid (write offset bs p)
unfolding write
write-IsValid offset bs p v = record { inside = v.inside; aligned = v.aligned }

-- The block [o, o + length kept) holds `kept`.
abbrev pub Holds : ℕ → List ℕ → Pool → Type 0
Holds o kept p = read o (length kept) p ≡ kept

deposit-Apart :
    (ret : ℕ) (bs : List ℕ) (o m t : ℕ) (kept : List ℕ) (p : Pool)
    → IsValid p
    → length bs ≤ m
    → m ≤ pool_size
    → Apart o (length kept) (align8 m) (align8 (length bs) + t) p
    → Holds o kept p
    → let q = (deposit ret bs p).1 in
      IsValid q × Apart o (length kept) (align8 m) t q × Holds o kept q
unfolding reserve write
deposit-Apart ret bs o m t kept p v small fits a h = elim (deposit_cases ret bs p) [
  | inl (_, e) ↦ rw e (v, weaken, h)
  | inr (_, e) ↦ rw e (
    write-IsValid place bs room (bounds.3),
    apart.1,
    load-store_apart room.bytes place bs o (length kept) apart.0 ∙ same ∙ h,
  )
]
  where
    place : ℕ
    place = (reserve (length bs) p).0

    room : Pool
    room = (reserve (length bs) p).1

    weaken : Apart o (length kept) (align8 m) t p
    weaken = ground arith

    bounds :
        (place + length bs ≤ pool_size)
        × (place % 8 ≡ 0)
        × (room.head_offset ≡ place + align8 (length bs))
        × IsValid room
    bounds = reserve_bounds (length bs) v (omega arith)

    apart :
        ((o + length kept ≤ place) ⊎ (place + length bs ≤ o))
        × Apart o (length kept) (align8 m) t room
    apart = reserve-Apart o (length kept) m t (length bs) p v small fits a

    same : load room.bytes o (length kept) ≡ load p.bytes o (length kept)
    same = refl

deposits-Apart :
    (rest : List (ℕ × List ℕ)) (o m : ℕ) (kept : List ℕ) (p : Pool)
    → IsValid p
    → AtMost m rest
    → m ≤ pool_size
    → Apart o (length kept) (align8 m) (total rest) p
    → Holds o kept p
    → Holds o kept (deposits rest p)
unfolding deposits
deposits-Apart [] o m kept p v small fits a h = h
deposits-Apart ((ret, bs) ∷ rest) o m kept p v small fits a h =
    let (w, b, k) = deposit-Apart ret bs o m (total rest) kept p v small.0 fits a h in
    deposits-Apart rest o m kept _ w small.1 fits b k

-- A block whose bytes were deposited still holds them after any sequence of later deposits of at
-- most `m` bytes each, if the block, the later ones and one more of `m` bytes fit the pool together.
pub deposit_survives :
    (ret : ℕ) (bs : List ℕ) (rest : List (ℕ × List ℕ)) (m : ℕ) {p q : Pool} {offset : ℕ}
    → IsValid p
    → deposit ret bs p ≡ (ok offset, q)
    → AtMost m rest
    → m ≤ pool_size
    → align8 (length bs) + total rest + align8 m ≤ pool_size
    → read offset (length bs) (deposits rest q) ≡ bs
deposit_survives ret bs rest m {p} {q} {offset} v e small fits room =
    let (a, _, c, w, h) = deposit_ok ret bs v e in
    deposits-Apart rest offset m bs q w small fits
      (inl (omega (arith, align8_bounds (length bs)), omega arith)) h
