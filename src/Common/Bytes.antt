-- ===== src/Common/Bytes.antt =====
-- Machine integers as bytes, least significant first, and blocks of bytes in a memory.
use com_ipc.Common.Tests.{◌==◌, if◌then◌else◌}
use com_ipc.Common.Lists.{length, take, drop, take-append, drop-append}
use Prim.Native.Nat.{ℕ, zero, suc, ◌+◌, ◌*◌, ◌/◌, ◌%◌, ◌^◌, ◌≤◌, ◌<◌}
use native.Mathlib.Nat.{pow-suc}
use mathlib.Core.Path.{◌≡◌, refl, ap, ap₂, ◌∙◌}
use mathlib.Core.Logic.{◌⊎◌}
use mathlib.Core.List.{List, [], ◌∷◌, ◌++◌}
use native.Mathlib.Omega.{arith}

-- The `n` bytes of a machine integer, as `memcpy` out of it gives them on x86 and ARM.
unfoldable pub le_bytes : ℕ → ℕ → List ℕ
le_bytes zero x = []
le_bytes (suc n) x = (x % 256) ∷ le_bytes n (x / 256)

-- The integer that a list of bytes stands for.
unfoldable pub of_le : List ℕ → ℕ
of_le [] = 0
of_le (b ∷ bs) = b + 256 * of_le bs

pub length-le_bytes : (n x : ℕ) → length (le_bytes n x) ≡ n
unfolding le_bytes
length-le_bytes zero x = refl
length-le_bytes (suc n) x = ap suc (length-le_bytes n (x / 256))

pub of_le-le_bytes : (n x : ℕ) → x < 256 ^ n → of_le (le_bytes n x) ≡ x
unfolding le_bytes of_le
of_le-le_bytes zero x h = omega arith
of_le-le_bytes (suc n) x h =
    omega (arith, of_le-le_bytes n (x / 256) (omega (arith, pow-suc 256 n)))

-- Every element is a byte.
abbrev pub AreBytes : List ℕ → Type 0
AreBytes [] = Unit {0}
AreBytes (b ∷ bs) = (b < 256) × AreBytes bs

pub take-AreBytes : (n : ℕ) (bs : List ℕ) → AreBytes bs → AreBytes (take n bs)
take-AreBytes zero bs v = tt
take-AreBytes (suc n) [] v = tt
take-AreBytes (suc n) (b ∷ bs) v = (v.0, take-AreBytes n bs v.1)

pub of_le-lt : (n : ℕ) (bs : List ℕ) → AreBytes bs → length bs ≤ n → of_le bs < 256 ^ n
unfolding of_le
of_le-lt zero [] v h = omega arith
of_le-lt (suc n) [] v h = omega (arith, of_le-lt n [] tt (omega arith), pow-suc 256 n)
of_le-lt zero (b ∷ bs) v h = absurd (omega arith)
of_le-lt (suc n) (b ∷ bs) v h = omega (arith, v.0, of_le-lt n bs v.1 (omega arith), pow-suc 256 n)

-- Reading a field of `n` bytes: the integer, and the bytes behind it.
pub of_le-take : (n x : ℕ) (rest : List ℕ) → x < 256 ^ n → of_le (take n (le_bytes n x ++ rest)) ≡ x
of_le-take n x rest h =
    ap of_le (take-append n (le_bytes n x) rest (length-le_bytes n x)) ∙ of_le-le_bytes n x h

pub drop-le_bytes : (n x : ℕ) (rest : List ℕ) → drop n (le_bytes n x ++ rest) ≡ rest
drop-le_bytes n x rest = drop-append n (le_bytes n x) rest (length-le_bytes n x)

-- A memory maps each address to its byte.
abbrev pub Memory : Type 0
Memory = ℕ → ℕ

-- `memcpy` of the bytes to address `o`.
unfoldable pub store : Memory → ℕ → List ℕ → Memory
store m o [] a = m a
store m o (b ∷ bs) a = if a == o then b else store m (o + 1) bs a

-- `memcpy` of `n` bytes from address `o`.
unfoldable pub load : Memory → ℕ → ℕ → List ℕ
load m o zero = []
load m o (suc n) = m o ∷ load m (o + 1) n

pub load-eq :
    (m k : Memory) (o n : ℕ) → ((a : ℕ) → o ≤ a → a < o + n → m a ≡ k a) → load m o n ≡ load k o n
unfolding load
load-eq m k o zero h = refl
load-eq m k o (suc n) h =
    ap₂ ◌∷◌ (h o (omega arith) (omega arith))
      (load-eq m k (o + 1) n (λ a p q. h a (omega arith) (omega arith)))

pub store_outside :
    (m : Memory) (o : ℕ) (bs : List ℕ) (a : ℕ)
    → (a < o) ⊎ (o + length bs ≤ a)
    → store m o bs a ≡ m a
unfolding store
store_outside m o [] a h = refl
store_outside m o (b ∷ bs) a h = ground (arith, store_outside m (o + 1) bs a)

-- What was copied in is what is copied out.
pub load-store_self : (m : Memory) (o : ℕ) (bs : List ℕ) → load (store m o bs) o (length bs) ≡ bs
unfolding store load
load-store_self m o [] = refl
load-store_self m o (b ∷ bs) = ap₂ ◌∷◌ (ground arith) (
    load-eq (store m o (b ∷ bs)) (store m (o + 1) bs) (o + 1) (length bs) (λ a p q. ground arith)
    ∙ load-store_self m (o + 1) bs)

-- A block elsewhere keeps its bytes.
pub load-store_apart :
    (m : Memory) (o : ℕ) (bs : List ℕ) (p n : ℕ)
    → (p + n ≤ o) ⊎ (o + length bs ≤ p)
    → load (store m o bs) p n ≡ load m p n
load-store_apart m o bs p n h =
    load-eq (store m o bs) m p n (λ a u v. store_outside m o bs a (omega arith))
