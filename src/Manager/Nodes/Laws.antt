-- ===== src/Manager/Nodes/Laws.antt =====
-- The node register as a map from names to processes.
use com_ipc.Common.{
  ℕ, zero, suc, ◌+◌, ◌≤◌, ◌<◌, ◌≡◌, ◌≢◌, refl, sym, ap, ◌⊎◌, inl, inr, List, [], ◌∷◌, true, false,
  Option, none, some, ok, lock_robust, if◌then◌else◌, length, leb, arith, Bool-cases, Option-cases,
}
use com_ipc.CString.{IsText, IsField, strncpy-IsField, to_string-strncpy}
use com_ipc.Types.{max_nodes}
use com_ipc.Manager.{NodeInfo, SystemManagerShm, new_manager}
use com_ipc.Manager.Nodes.{
  same_text, occupy, register_node, vacate, unregister_node, active_nodes, list_nodes, find_pid,
  get_node_pid,
}

pub same_text_iff : (a b : List ℕ) → (same_text a b ≡ true) → a ≡ b
unfolding same_text
same_text_iff [] [] h = refl
same_text_iff [] (d ∷ b) h = cc
same_text_iff (c ∷ a) [] h = cc
same_text_iff (c ∷ a) (d ∷ b) h = ground (arith, same_text_iff a b)

pub same_text_refl : (a : List ℕ) → same_text a a ≡ true
unfolding same_text
same_text_refl [] = refl
same_text_refl (c ∷ a) = ground (arith, same_text_refl a)

-- The number of active slots.
abbrev pub count_active : List NodeInfo → ℕ
count_active [] = 0
count_active (n ∷ ns) = (if n.active then 1 else 0) + count_active ns

count_active-le-length : (ns : List NodeInfo) → count_active ns ≤ length ns
count_active-le-length [] = omega arith
count_active-le-length (n ∷ ns) = ground (arith, count_active-le-length ns)

abbrev pub AreFields : List NodeInfo → Type 0
AreFields [] = Unit {0}
AreFields (n ∷ ns) = IsField 63 n.name × AreFields ns

-- The register has its slots, each name ends in a zero, and `node_count` counts the active slots.
pub record IsValid (m : SystemManagerShm) : Type 0 where
  pub slots : length m.nodes ≡ max_nodes
  pub fields : AreFields m.nodes
  pub counted : m.node_count ≡ count_active m.nodes

pub new_manager-IsValid : IsValid new_manager
new_manager-IsValid = omega arith

occupy-length :
    (name : List ℕ) (pid : ℕ) (ns : List NodeInfo) → length (occupy name pid ns).1 ≡ length ns
unfolding occupy
occupy-length name pid [] = refl
occupy-length name pid (n ∷ ns) = ground (arith, occupy-length name pid ns)

occupy-AreFields :
    (name : List ℕ) (pid : ℕ) (ns : List NodeInfo) → AreFields ns → AreFields (occupy name pid ns).1
unfolding occupy
occupy-AreFields name pid [] v = tt
occupy-AreFields name pid (n ∷ ns) v = elim (Bool-cases n.active) [
  | inl a ↦ rw a (v.0, occupy-AreFields name pid ns v.1)
  | inr a ↦ rw a (strncpy-IsField 63 n.name name v.0, v.1)
]

-- The search for a slot fails only when every slot is active, and else adds one active slot.
occupy-count :
    (name : List ℕ) (pid : ℕ) (ns : List NodeInfo)
    → (((occupy name pid ns).0 ≡ none) × (count_active ns ≡ length ns))
      ⊎ ((i : ℕ) × ((occupy name pid ns).0 ≡ some i)
          × (i < length ns)
          × (count_active (occupy name pid ns).1 ≡ count_active ns + 1))
unfolding occupy
occupy-count name pid [] = inl (refl, refl)
occupy-count name pid (n ∷ ns) = elim (Bool-cases n.active) [
  | inr a ↦ rw a (inr (0, refl, omega arith, omega arith))
  | inl a ↦ elim (occupy-count name pid ns) [
    | inl (e, f) ↦ inl (ground arith, ground arith)
    | inr (i, e, f, g) ↦ inr (suc i, ground arith, ground arith, ground arith)
  ]
]

-- Vacating the slot that was found brings back every answer of the register.
vacate-occupy :
    (name : List ℕ) (pid i : ℕ) (ns : List NodeInfo)
    → (occupy name pid ns).0 ≡ some i
    → let r = vacate i (occupy name pid ns).1 in
      (r.0 ≡ true)
      × ((other : List ℕ) → find_pid other r.1 ≡ find_pid other ns)
      × (active_nodes r.1 ≡ active_nodes ns)
unfolding occupy vacate find_pid active_nodes
vacate-occupy name pid i [] h = cc
vacate-occupy name pid zero (n ∷ ns) h = elim (Bool-cases n.active) [
  | inl a ↦ elim (Option-cases (occupy name pid ns).0) [
    | inl e ↦ cc (rw (a, e) at h)
    | inr (j, e) ↦ absurd (ground arith)
  ]
  | inr a ↦ rw a (refl, λ other. refl, refl)
]
vacate-occupy name pid (suc i) (n ∷ ns) h = elim (Bool-cases n.active) [
  | inl a ↦
      let (x, y, z) = vacate-occupy name pid i ns (ground arith) in
      rw a (x, λ other. rw (y other), rw z)
  | inr a ↦ absurd (ground arith)
]

-- A name that is free before is found with its process.
pub find_pid-occupy :
    (name : List ℕ) (pid i : ℕ) (ns : List NodeInfo)
    → IsText name
    → length name ≤ 63
    → AreFields ns
    → find_pid name ns ≡ none
    → (occupy name pid ns).0 ≡ some i
    → find_pid name (occupy name pid ns).1 ≡ some pid
unfolding occupy find_pid
find_pid-occupy name pid i [] t fits v free h = cc
find_pid-occupy name pid i (n ∷ ns) t fits v free h = elim (Bool-cases n.active) [
  | inr a ↦ rw (a, to_string-strncpy 63 n.name name t fits v.0, same_text_refl name)
  | inl a ↦ elim (Option-cases (occupy name pid ns).0) [
    | inl e ↦ cc (rw (a, e) at h)
    | inr (j, e) ↦ ground (arith, find_pid-occupy name pid j ns t fits v.1)
  ]
]

-- Every other name keeps its process.
pub find_pid-occupy_ne :
    (name other : List ℕ) (pid : ℕ) (ns : List NodeInfo)
    → IsText name
    → length name ≤ 63
    → AreFields ns
    → other ≢ name
    → find_pid other (occupy name pid ns).1 ≡ find_pid other ns
unfolding occupy find_pid
find_pid-occupy_ne name other pid [] t fits v ne = refl
find_pid-occupy_ne name other pid (n ∷ ns) t fits v ne = elim (Bool-cases n.active) [
  | inl a ↦ rw (a, find_pid-occupy_ne name other pid ns t fits v.1 ne)
  | inr a ↦
      rw (a, to_string-strncpy 63 n.name name t fits v.0)
        (elim (Bool-cases (same_text name other)) [
          | inl e ↦ absurd (ne (sym (same_text_iff name other e)))
          | inr e ↦ rw e
        ])
]

vacate-lemmas :
    (i : ℕ) (ns : List NodeInfo)
    → AreFields ns
    → let r = vacate i ns in
      (length r.1 ≡ length ns)
      × AreFields r.1
      × (r.0 ≡ true → count_active r.1 + 1 ≡ count_active ns)
unfolding vacate
vacate-lemmas i [] v = (refl, tt, λ h. cc)
vacate-lemmas zero (n ∷ ns) v = (refl, (v.0, v.1), λ h. ground arith)
vacate-lemmas (suc i) (n ∷ ns) v =
    let (a, b, c) = vacate-lemmas i ns v.1 in (ap suc a, (v.0, b), λ h. omega (arith, c h))

-- Registering keeps the register valid, whatever the lock returns.
pub register_node-IsValid :
    (lock : ℕ) (name : List ℕ) (pid : ℕ) {m : SystemManagerShm}
    → IsValid m
    → IsValid (register_node lock name pid m).1
unfolding register_node
register_node-IsValid lock name pid {m} v = ground (
  arith,
  occupy-length name pid m.nodes,
  occupy-AreFields name pid m.nodes v.fields,
  occupy-count name pid m.nodes,
)

-- Unregistering keeps the register valid, whatever the id and whatever the lock returns.
pub unregister_node-IsValid :
    (lock : ℕ) (id : Option ℕ) {m : SystemManagerShm}
    → IsValid m
    → IsValid (unregister_node lock id m).1
unfolding unregister_node
unregister_node-IsValid lock none v = v
unregister_node-IsValid lock (some i) {m} v = ground (arith, vacate-lemmas i m.nodes v.fields)

pub register_node_success :
    (name : List ℕ) (pid i : ℕ) (m m' : SystemManagerShm)
    → register_node 0 name pid m ≡ (ok (some i), m')
    → ((occupy name pid m.nodes).0 ≡ some i)
      × (m' ≡ record m { nodes = (occupy name pid m.nodes).1; node_count = m.node_count + 1 })
unfolding register_node lock_robust
register_node_success name pid i m m' h = elim (Option-cases (occupy name pid m.nodes).0) [
  | inl e ↦ absurd (ground arith)
  | inr (j, e) ↦ (ground arith, ground arith)
]

-- In a valid register a node gets an id exactly when fewer than `MAX_NODES` nodes are registered,
-- and the id is below `MAX_NODES`; a full register is left as it is.
pub register_node_room :
    (name : List ℕ) (pid : ℕ) (m : SystemManagerShm)
    → IsValid m
    → ((m.node_count ≡ max_nodes) × (register_node 0 name pid m ≡ (ok none, m)))
      ⊎ ((m.node_count < max_nodes)
          × ((i : ℕ) × (i < max_nodes) × ((register_node 0 name pid m).0 ≡ ok (some i))))
unfolding register_node lock_robust
register_node_room name pid m v = elim (occupy-count name pid m.nodes) [
  | inl (e, f) ↦ inl (omega (arith, v.slots, v.counted), ground arith)
  | inr (i, e, f, g) ↦ inr (
    omega (
      arith,
      v.slots,
      v.counted,
      count_active-le-length (occupy name pid m.nodes).1,
      occupy-length name pid m.nodes,
    ),
    (i, omega (arith, v.slots), ground arith),
  )
]

-- A node that is registered under a name that fits and is free is found with its process, and every
-- other name keeps its process.
pub get_node_pid-register_node :
    (name other : List ℕ) (pid i : ℕ) {m m' : SystemManagerShm}
    → IsValid m
    → IsText name
    → length name ≤ 63
    → other ≢ name
    → get_node_pid 0 name m ≡ ok none
    → register_node 0 name pid m ≡ (ok (some i), m')
    → (get_node_pid 0 name m' ≡ ok (some pid)) × (get_node_pid 0 other m' ≡ get_node_pid 0 other m)
unfolding get_node_pid lock_robust
get_node_pid-register_node name other pid i {m} {m'} v t fits ne free h =
    let (e, f) = register_node_success name pid i m m' h in
    (
      rw f (ap (λ o. ok o) (find_pid-occupy name pid i m.nodes t fits v.fields (ground arith) e)),
      rw f (ap (λ o. ok o) (find_pid-occupy_ne name other pid m.nodes t fits v.fields ne)),
    )

-- A node that is registered and unregistered again leaves no trace: the count, the list of nodes
-- and the process of every name are those of before.
pub unregister_node-register_node :
    (name other : List ℕ) (pid i : ℕ) {m m' : SystemManagerShm}
    → IsValid m
    → register_node 0 name pid m ≡ (ok (some i), m')
    → let after = (unregister_node 0 (some i) m').1 in
      (after.node_count ≡ m.node_count)
      × (list_nodes 0 after ≡ list_nodes 0 m)
      × (get_node_pid 0 other after ≡ get_node_pid 0 other m)
unfolding unregister_node list_nodes get_node_pid lock_robust
unregister_node-register_node name other pid i {m} {m'} v h =
    let (e, f) = register_node_success name pid i m m' h in
    let (x, y, z) = vacate-occupy name pid i m.nodes e in
    let inside : leb max_nodes i ≡ false = elim (occupy-count name pid m.nodes) [
      | inl (none_left, _) ↦ absurd (ground arith)
      | inr (j, found, lt, _) ↦ ground (arith, v.slots)
    ] in
    rw (f, inside, x) (omega arith, ap (λ l. ok l) z, ap (λ o. ok o) (y other))
