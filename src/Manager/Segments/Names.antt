-- ===== src/Manager/Segments/Names.antt =====
-- File names: which topics share a file.
use com_ipc.Common.{ℕ, ◌≡◌, refl, List, [], ◌∷◌, map, arith}
use mathlib.Core.List.{map-append}
use com_ipc.Manager.Segments.{flatten_char, shm_name}

map-flatten : (name : List ℕ) → map flatten_char (map flatten_char name) ≡ map flatten_char name
map-flatten [] = refl
map-flatten (c ∷ name) = ground (arith, map-flatten name)

-- A name and the one with `_` for each `/` have the same file, though the registry keeps them
-- apart.
pub shm_name_shared :
    (prefix name : List ℕ) → shm_name prefix (map flatten_char name) ≡ shm_name prefix name
unfolding shm_name
shm_name_shared prefix name = simp (map-append, map-flatten)
