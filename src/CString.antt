-- ===== src/CString.antt =====
-- The C strings of the registry: `strncpy` and `strncmp` on `char name[64]`, and `std::string` made
-- of it.
use com_ipc.Common.{
  ℕ, zero, suc, ◌≤◌, ◌<◌, ◌≡◌, refl, ap, List, [], ◌∷◌, Bool, true, false, if◌then◌else◌, ◌==◌,
  length, get_or, take, ◌∙◌, arith,
}

-- `strncpy(to, from, n)`: at most `n` bytes, filled up with zeros; the rest of `to` is left.
unfoldable pub strncpy : ℕ → List ℕ → List ℕ → List ℕ
strncpy zero to from = to
strncpy (suc n) [] from = []
strncpy (suc n) (t ∷ to) [] = 0 ∷ strncpy n to []
strncpy (suc n) (t ∷ to) (c ∷ from) =
    (if c == 0 then 0 else c) ∷ strncpy n to (if c == 0 then [] else from)

-- `strncmp(a, b, n) == 0`; a list ends in its zero.
unfoldable pub same_chars : ℕ → List ℕ → List ℕ → Bool
same_chars zero a b = true
same_chars (suc n) [] [] = true
same_chars (suc n) [] (d ∷ b) = d == 0
same_chars (suc n) (c ∷ a) [] = c == 0
same_chars (suc n) (c ∷ a) (d ∷ b) =
    let rest = same_chars n a b in if c == d then (if c == 0 then true else rest) else false

-- `std::string(char*)`: up to the first zero.
unfoldable pub to_string : List ℕ → List ℕ
to_string [] = []
to_string (c ∷ cs) = let rest = to_string cs in if c == 0 then [] else c ∷ rest

-- No character is the zero.
abbrev pub IsText : List ℕ → Type 0
IsText [] = Unit {0}
IsText (c ∷ cs) = (0 < c) × IsText cs

-- A field of `n + 1` bytes whose last one is the zero, as in new memory; `strncpy` of at most `n`
-- bytes keeps it so.
pub record IsField (n : ℕ) (to : List ℕ) : Type 0 where
  pub size : length to ≡ suc n
  pub ended : get_or to n 1 ≡ 0

pub IsField-tail : {n t : ℕ} {to : List ℕ} → IsField (suc n) (t ∷ to) → IsField n to
IsField-tail f = record { size = omega (arith, f.size); ended = f.ended }

length-strncpy : (n : ℕ) (to from : List ℕ) → length (strncpy n to from) ≡ length to
unfolding strncpy
length-strncpy zero to from = refl
length-strncpy (suc n) [] from = refl
length-strncpy (suc n) (t ∷ to) [] = ap suc (length-strncpy n to [])
length-strncpy (suc n) (t ∷ to) (c ∷ from) =
    ap suc (length-strncpy n to (if c == 0 then [] else from))

get_or-strncpy : (n : ℕ) (to from : List ℕ) → get_or (strncpy n to from) n 1 ≡ get_or to n 1
unfolding strncpy
get_or-strncpy zero to from = refl
get_or-strncpy (suc n) [] from = refl
get_or-strncpy (suc n) (t ∷ to) [] = get_or-strncpy n to []
get_or-strncpy (suc n) (t ∷ to) (c ∷ from) = get_or-strncpy n to (if c == 0 then [] else from)

pub strncpy-IsField : (n : ℕ) (to from : List ℕ) → IsField n to → IsField n (strncpy n to from)
strncpy-IsField n to from f = record {
  size = length-strncpy n to from ∙ f.size;
  ended = get_or-strncpy n to from ∙ f.ended;
}

-- A name that fits the field with its zero is found under itself.
pub same_chars-strncpy :
    (n : ℕ) (to name : List ℕ)
    → IsText name
    → length name ≤ n
    → IsField n to
    → same_chars (suc n) (strncpy n to name) name ≡ true
unfolding same_chars strncpy
same_chars-strncpy zero [] name v fits f = absurd (omega (arith, f.size))
same_chars-strncpy zero (t ∷ to) [] v fits f = ground (arith, f.ended)
same_chars-strncpy zero (t ∷ to) (c ∷ name) v fits f = absurd (omega arith)
same_chars-strncpy (suc n) [] name v fits f = absurd (omega (arith, f.size))
same_chars-strncpy (suc n) (t ∷ to) [] v fits f = refl
same_chars-strncpy (suc n) (t ∷ to) (c ∷ name) v fits f =
    ground (arith, v.0, same_chars-strncpy n to name v.1 (omega arith) (IsField-tail f))

-- Nothing else is found under it.
pub same_chars-eq :
    (n : ℕ) (to name other : List ℕ)
    → IsText name
    → IsText other
    → length name ≤ n
    → IsField n to
    → same_chars (suc n) (strncpy n to name) other ≡ true
    → other ≡ name
unfolding same_chars strncpy
same_chars-eq n [] name other v w fits f h = absurd (omega (arith, f.size))
same_chars-eq zero (t ∷ to) [] [] v w fits f h = refl
same_chars-eq zero (t ∷ to) [] (d ∷ other) v w fits f h = ground (arith, f.ended, w.0)
same_chars-eq zero (t ∷ to) (c ∷ name) other v w fits f h = absurd (omega arith)
same_chars-eq (suc n) (t ∷ to) [] [] v w fits f h = refl
same_chars-eq (suc n) (t ∷ to) [] (d ∷ other) v w fits f h = ground (arith, w.0)
same_chars-eq (suc n) (t ∷ to) (c ∷ name) [] v w fits f h = ground (arith, v.0)
same_chars-eq (suc n) (t ∷ to) (c ∷ name) (d ∷ other) v w fits f h =
    ground (arith, v.0, same_chars-eq n to name other v.1 w.1 (omega arith) (IsField-tail f))

-- A name that does not fit is found under no field, its own included: the field's last byte is the
-- zero.
pub same_chars-long :
    (n : ℕ) (to name : List ℕ)
    → IsText name
    → n < length name
    → IsField n to
    → same_chars (suc n) to name ≡ false
unfolding same_chars
same_chars-long n [] name v long f = absurd (omega (arith, f.size))
same_chars-long n (t ∷ to) [] v long f = absurd (omega arith)
same_chars-long zero (t ∷ to) (c ∷ name) v long f = ground (arith, v.0, f.ended)
same_chars-long (suc n) (t ∷ to) (c ∷ name) v long f =
    ground (arith, v.0, same_chars-long n to name v.1 (omega arith) (IsField-tail f))

-- The text that is read back is the name.
pub to_string-strncpy :
    (n : ℕ) (to name : List ℕ)
    → IsText name
    → length name ≤ n
    → IsField n to
    → to_string (strncpy n to name) ≡ name
unfolding to_string strncpy
to_string-strncpy n [] name v fits f = absurd (omega (arith, f.size))
to_string-strncpy zero (t ∷ to) [] v fits f = ground (arith, f.ended)
to_string-strncpy zero (t ∷ to) (c ∷ name) v fits f = absurd (omega arith)
to_string-strncpy (suc n) (t ∷ to) [] v fits f = refl
to_string-strncpy (suc n) (t ∷ to) (c ∷ name) v fits f =
    ground (arith, v.0, to_string-strncpy n to name v.1 (omega arith) (IsField-tail f))

-- Of a name of any length the field keeps what fits.
pub to_string-strncpy-take :
    (n : ℕ) (to name : List ℕ)
    → IsText name
    → IsField n to
    → to_string (strncpy n to name) ≡ take n name
unfolding to_string strncpy
to_string-strncpy-take n [] name v f = absurd (omega (arith, f.size))
to_string-strncpy-take zero (t ∷ to) name v f = ground (arith, f.ended)
to_string-strncpy-take (suc n) (t ∷ to) [] v f = refl
to_string-strncpy-take (suc n) (t ∷ to) (c ∷ name) v f =
    ground (arith, v.0, to_string-strncpy-take n to name v.1 (IsField-tail f))
