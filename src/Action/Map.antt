-- ===== src/Action/Map.antt =====
-- std::map<int, T> and std::set<int>, as src/action_client.cpp and src/action_server.cpp use them: a
-- map is the list of its entries in the order of the signed keys.
use com_ipc.Common.{
  ℕ, ◌+◌, ◌%◌, ◌^◌, ◌≡◌, ◌≢◌, refl, List, [], ◌∷◌, Bool, true, false, Option, none, some,
  if◌then◌else◌, ltb, ◌==◌, arith, Bool-cases, inl, inr,
}

-- The order of two `int` by their bit patterns.
abbrev pub before : ℕ → ℕ → Bool
before a b = ltb ((a + 2 ^ 31) % 2 ^ 32) ((b + 2 ^ 31) % 2 ^ 32)

-- `find`
unfoldable pub lookup {ℓ} : {A : Type ℓ} → ℕ → List (ℕ × A) → Option A
lookup k [] = none
lookup k ((j, a) ∷ m) = let rest = lookup k m in if j == k then some a else rest

-- `m[k] = a`
unfoldable pub put {ℓ} : {A : Type ℓ} → ℕ → A → List (ℕ × A) → List (ℕ × A)
put k a [] = (k, a) ∷ []
put k a ((j, b) ∷ m) =
    let rest = put k a m in
    if j == k then (k, a) ∷ m else if before k j then (k, a) ∷ (j, b) ∷ m else (j, b) ∷ rest

-- `erase`
unfoldable pub erase {ℓ} : {A : Type ℓ} → ℕ → List (ℕ × A) → List (ℕ × A)
erase k [] = []
erase k ((j, b) ∷ m) = let rest = erase k m in if j == k then rest else (j, b) ∷ rest

-- `count`, `insert` and `erase` of a set.
unfoldable pub member : ℕ → List ℕ → Bool
member k [] = false
member k (j ∷ s) = let rest = member k s in if j == k then true else rest

unfoldable pub insert : ℕ → List ℕ → List ℕ
unfolding member
insert k s = if member k s then s else k ∷ s

unfoldable pub remove : ℕ → List ℕ → List ℕ
remove k [] = []
remove k (j ∷ s) = let rest = remove k s in if j == k then rest else j ∷ rest

==_refl : (k : ℕ) → (k == k) ≡ true
==_refl k = ground arith

==_ne : (k i : ℕ) → i ≢ k → (k == i) ≡ false
==_ne k i ne = ground arith

pub lookup-put {ℓ} : {A : Type ℓ} (k : ℕ) (a : A) (m : List (ℕ × A)) → lookup k (put k a m) ≡ some a
unfolding lookup put
lookup-put k a [] = ground arith
lookup-put k a ((j, b) ∷ m) = elim (Bool-cases (j == k)) [
  | inl e ↦ rw e (rw (==_refl k))
  | inr e ↦ elim (Bool-cases (before k j)) [
    | inl l ↦ rw (e, l) (rw (==_refl k))
    | inr l ↦ rw (e, l) (rw e (lookup-put k a m))
  ]
]

pub lookup-put_ne {ℓ} :
    {A : Type ℓ} (k i : ℕ) (a : A) (m : List (ℕ × A)) → i ≢ k → lookup i (put k a m) ≡ lookup i m
unfolding lookup put
lookup-put_ne k i a [] ne = rw (==_ne k i ne)
lookup-put_ne k i a ((j, b) ∷ m) ne = elim (Bool-cases (j == k)) [
  | inl e ↦ let same : j ≡ k = ground arith in rw (e, same) (rw (==_ne k i ne))
  | inr e ↦ elim (Bool-cases (before k j)) [
    | inl l ↦ rw (e, l) (rw (==_ne k i ne))
    | inr l ↦ rw (e, l) (rw (lookup-put_ne k i a m ne))
  ]
]

pub lookup-erase {ℓ} : {A : Type ℓ} (k : ℕ) (m : List (ℕ × A)) → lookup k (erase k m) ≡ none
unfolding lookup erase
lookup-erase k [] = refl
lookup-erase k ((j, b) ∷ m) = ground (arith, lookup-erase k m)

pub lookup-erase_ne {ℓ} :
    {A : Type ℓ} (k i : ℕ) (m : List (ℕ × A)) → i ≢ k → lookup i (erase k m) ≡ lookup i m
unfolding lookup erase
lookup-erase_ne k i [] ne = refl
lookup-erase_ne k i ((j, b) ∷ m) ne = ground (arith, lookup-erase_ne k i m ne)

pub member-insert : (k : ℕ) (s : List ℕ) → member k (insert k s) ≡ true
unfolding member insert
member-insert k s = ground arith

pub member-insert_stays : (k i : ℕ) (s : List ℕ) → member i s ≡ true → member i (insert k s) ≡ true
unfolding member insert
member-insert_stays k i s h = ground arith

-- A member of the larger set was one, or is the new one.
pub member-insert_cases :
    (k i : ℕ) (s : List ℕ) → member i (insert k s) ≡ true → i ≢ k → member i s ≡ true
unfolding member insert
member-insert_cases k i s h ne = ground arith
