-- ===== src/Manager/Nodes/Directory.antt =====
-- The node register of src/system_manager.cpp beside a bag of names and processes, which forgets
-- slots and their order.
use com_ipc.Common.{
  ℕ, zero, suc, ◌+◌, ◌≤◌, ◌<◌, ◌≡◌, refl, ◌⊎◌, inl, inr, List, [], ◌∷◌, true, false, ap, length,
  ◌&&◌, ◌==◌, Option, none, some, ok, lock_robust, if◌then◌else◌, take, leb, leb→le, arith,
  Bool-cases,
}
use mathlib.Core.Path.{subst}
use com_ipc.CString.{IsText, to_string, to_string-strncpy-take}
use com_ipc.Types.{max_nodes}
use com_ipc.Manager.{NodeInfo, SystemManagerShm}
use com_ipc.Manager.Nodes.{
  same_text, occupy, register_node, vacate, unregister_node, find_pid, get_node_pid,
}
use com_ipc.Manager.Nodes.Laws.{
  IsValid, AreFields, register_node-IsValid, unregister_node-IsValid, register_node_room,
  register_node_success,
}

-- One node: is it of this name and process?
abbrev pub one : List ℕ → ℕ → List ℕ → ℕ → ℕ
one name pid k p = if same_text name k && pid == p then 1 else 0

-- The abstract view: how many nodes of a name and a process there are.
unfoldable pub entries : List NodeInfo → List ℕ → ℕ → ℕ
entries [] k p = 0
entries (n ∷ ns) k p = (if n.active then one (to_string n.name) n.pid k p else 0) + entries ns k p

-- The name and the process of a slot that is taken.
unfoldable pub slot : ℕ → List NodeInfo → Option (List ℕ × ℕ)
slot i [] = none
slot zero (n ∷ ns) = if n.active then some (to_string n.name, n.pid) else none
slot (suc i) (n ∷ ns) = slot i ns

-- What processes do to the register.
pub data Act : Type 0 where
  registers : (name : List ℕ) (pid : ℕ) → Act
  unregisters : (id : Option ℕ) → Act

abbrev pub after : Act → SystemManagerShm → SystemManagerShm
after (registers name pid) m = (register_node 0 name pid m).1
after (unregisters id) m = (unregister_node 0 id m).1

-- Names are C strings.
abbrev pub IsNamed : Act → Type 0
IsNamed (registers name pid) = IsText name
IsNamed (unregisters id) = Unit {0}

-- One node more, or the same nodes.
abbrev pub Adds : List ℕ → ℕ → List NodeInfo → List NodeInfo → Type 0
Adds name pid ns ns' = (k : List ℕ) (p : ℕ) → entries ns' k p ≡ entries ns k p + one name pid k p

abbrev pub IsSame : List NodeInfo → List NodeInfo → Type 0
IsSame ns ns' = (k : List ℕ) (p : ℕ) → entries ns' k p ≡ entries ns k p

abbrev slot_of : Option ℕ → List NodeInfo → Option (List ℕ × ℕ)
slot_of none ns = none
slot_of (some i) ns = slot i ns

-- What an act does to the bag: a registration adds its process under what fits of its name and gives
-- the id of the slot, or gets no id where the register is full; the other takes away the node that
-- its id stands for, if there is one.
abbrev pub Does : Act → SystemManagerShm → SystemManagerShm → Type 0
Does (registers name pid) m m' =
    ((m.node_count ≡ max_nodes)
      × ((register_node 0 name pid m).0 ≡ ok none)
      × IsSame m.nodes m'.nodes)
    ⊎ ((i : ℕ) × ((register_node 0 name pid m).0 ≡ ok (some i))
        × (slot i m'.nodes ≡ some (take 63 name, pid))
        × Adds (take 63 name) pid m.nodes m'.nodes)
Does (unregisters id) m m' =
    ((slot_of id m.nodes ≡ none) × IsSame m.nodes m'.nodes)
    ⊎ ((name : List ℕ) × (pid : ℕ) × (slot_of id m.nodes ≡ some (name, pid))
        × Adds name pid m'.nodes m.nodes)

-- What a search for a name answers: a process of the bag, or there is none of that name in it.
abbrev pub Answers : SystemManagerShm → Type 0
Answers m =
    (k : List ℕ)
    → ((get_node_pid 0 k m ≡ ok none) × ((p : ℕ) → entries m.nodes k p ≡ 0))
      ⊎ ((p : ℕ) × (get_node_pid 0 k m ≡ ok (some p)) × (0 < entries m.nodes k p))

find_pid-entries :
    (k : List ℕ) (ns : List NodeInfo)
    → ((find_pid k ns ≡ none) × ((p : ℕ) → entries ns k p ≡ 0))
      ⊎ ((p : ℕ) × (find_pid k ns ≡ some p) × (0 < entries ns k p))
unfolding find_pid entries
find_pid-entries k [] = inl (refl, λ p. refl)
find_pid-entries k (n ∷ ns) = elim (Bool-cases (n.active && same_text (to_string n.name) k)) [
  | inl e ↦ inr (n.pid, ground arith, ground arith)
  | inr e ↦ elim (find_pid-entries k ns) [
    | inl (f, none_there) ↦ inl (ground arith, λ p. ground (arith, none_there p))
    | inr (p, f, more) ↦ inr (p, ground arith, ground arith)
  ]
]

register-Answers : (m : SystemManagerShm) → Answers m
unfolding get_node_pid lock_robust
register-Answers m k = elim (find_pid-entries k m.nodes) [
  | inl (e, f) ↦ inl (rw e refl, f)
  | inr (p, e, f) ↦ inr (p, rw e refl, f)
]

occupy-Adds :
    (name : List ℕ) (pid : ℕ) (ns : List NodeInfo)
    → IsText name
    → AreFields ns
    → ((occupy name pid ns).0 ≡ none)
      ⊎ ((i : ℕ) × ((occupy name pid ns).0 ≡ some i)
          × (slot i (occupy name pid ns).1 ≡ some (take 63 name, pid))
          × Adds (take 63 name) pid ns (occupy name pid ns).1)
unfolding occupy entries slot
occupy-Adds name pid [] t v = inl refl
occupy-Adds name pid (n ∷ ns) t v = elim (Bool-cases n.active) [
  | inr free ↦
      let kept = to_string-strncpy-take 63 n.name name t v.0 in
      inr (0, rw free refl, rw (free, kept) refl, rw (free, kept) (λ k p. omega arith))
  | inl busy ↦ elim (occupy-Adds name pid ns t v.1) [
    | inl e ↦ inl (rw (busy, e) refl)
    | inr (i, e, at, adds) ↦
        inr (suc i, rw (busy, e) refl, rw busy at, rw busy (λ k p. omega (arith, adds k p)))
  ]
]

slot_out : (i : ℕ) (ns : List NodeInfo) → length ns ≤ i → slot i ns ≡ none
unfolding slot
slot_out i [] h = refl
slot_out zero (n ∷ ns) h = absurd (omega arith)
slot_out (suc i) (n ∷ ns) h = slot_out i ns (omega arith)

vacate-Adds :
    (i : ℕ) (ns : List NodeInfo)
    → ((slot i ns ≡ none) × ((vacate i ns).0 ≡ false))
      ⊎ ((name : List ℕ) × (pid : ℕ) × (slot i ns ≡ some (name, pid))
          × ((vacate i ns).0 ≡ true)
          × Adds name pid (vacate i ns).1 ns)
unfolding vacate entries slot
vacate-Adds i [] = inl (refl, refl)
vacate-Adds zero (n ∷ ns) = elim (Bool-cases n.active) [
  | inr e ↦ inl (rw e refl, e)
  | inl e ↦ inr (to_string n.name, n.pid, rw e refl, e, λ k p. rw e (omega arith))
]
vacate-Adds (suc i) (n ∷ ns) = elim (vacate-Adds i ns) [
  | inl e ↦ inl e
  | inr (name, pid, e, f, adds) ↦ inr (name, pid, e, f, λ k p. omega (arith, adds k p))
]

register_node-Does :
    (name : List ℕ) (pid : ℕ) (m : SystemManagerShm)
    → IsValid m
    → IsText name
    → Does (registers name pid) m (register_node 0 name pid m).1
register_node-Does name pid m v t = elim (register_node_room name pid m v) [
  | inl (full, e) ↦ inl (full, rw e refl, rw e (λ k p. refl))
  | inr (_, (i, _, e)) ↦
      let (found, changed) =
        register_node_success name pid i m (register_node 0 name pid m).1
          (ap (λ r. (r, (register_node 0 name pid m).1)) e) in
      elim (occupy-Adds name pid m.nodes t v.fields) [
        | inl f ↦ cc
        | inr (j, f, at, adds) ↦
            let same : j ≡ i = cc in
            inr (
              i,
              e,
              subst (λ q. slot q (register_node 0 name pid m).1.nodes ≡ some (take 63 name, pid))
                  same (rw changed at),
              rw changed adds,
            )
      ]
]

unregister_node-Does :
    (id : Option ℕ) (m : SystemManagerShm)
    → IsValid m
    → Does (unregisters id) m (unregister_node 0 id m).1
unfolding unregister_node lock_robust
unregister_node-Does none m v = inl (refl, λ k p. refl)
unregister_node-Does (some i) m v = elim (Bool-cases (leb max_nodes i)) [
  | inl out ↦
      inl
        (slot_out i m.nodes (omega (arith, v.slots, leb→le max_nodes i out)), rw out (λ k p. refl))
  | inr inside ↦ elim (vacate-Adds i m.nodes) [
    | inl (e, f) ↦ inl (e, rw (inside, f) (λ k p. refl))
    | inr (name, pid, e, f, adds) ↦ inr (name, pid, e, rw (inside, f) adds)
  ]
]

-- The register is a bag of names and processes, with names of any length (none of their characters
-- zero), also where a name is taken already, and with the lock had. From a valid register, a
-- registration either adds one node, of its process under the first 63 characters of its name, and
-- gives the id of the slot that holds it, or gives none where the register is full and changes
-- nothing in the bag; an unregistration takes away exactly the node that stands in the slot of its
-- id, or nothing where there is none. The register is valid again, and the search for a name then
-- answers a process that has a node of this name in the bag, or none where the bag has no such node.
pub Step-Change :
    (a : Act) (m : SystemManagerShm)
    → IsValid m
    → IsNamed a
    → IsValid (after a m) × Does a m (after a m) × Answers (after a m)
Step-Change (registers name pid) m v t = (
  register_node-IsValid 0 name pid v,
  register_node-Does name pid m v t,
  register-Answers (register_node 0 name pid m).1,
)
Step-Change (unregisters id) m v t = (
  unregister_node-IsValid 0 id v,
  unregister_node-Does id m v,
  register-Answers (unregister_node 0 id m).1,
)
