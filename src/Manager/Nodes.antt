-- ===== src/Manager/Nodes.antt =====
-- The node register: registerNode, unregisterNode, listNodes and getNodePid of
-- src/system_manager.cpp, and the constructor and destructor of Node in src/node.cpp, which call
-- the first two.
pub mod Laws
pub mod Directory
use com_ipc.Common.{
  ℕ, zero, suc, ◌+◌, ◌-◌, List, [], ◌∷◌, Bool, true, false, not, Option, none, some, Result, ok,
  throw, lock_robust, if◌then◌else◌, ◌&&◌, get_elem?, set, leb,
}
use mathlib.Core.Option
use com_ipc.Common.{◌==◌}
use com_ipc.CString.{strncpy, to_string}
use com_ipc.Types.{max_nodes}
use com_ipc.Manager.{NodeInfo, SystemManagerShm}

-- The comparison of two `std::string`.
unfoldable pub same_text : List ℕ → List ℕ → Bool
same_text [] [] = true
same_text [] (d ∷ b) = false
same_text (c ∷ a) [] = false
same_text (c ∷ a) (d ∷ b) = c == d && same_text a b

-- The loop of `registerNode`: the first free slot gets the node. The result is its index.
unfoldable pub occupy : List ℕ → ℕ → List NodeInfo → Option ℕ × List NodeInfo
occupy name pid [] = (none, [])
occupy name pid (n ∷ ns) =
    let (found, rest) = occupy name pid ns in
    if n.active
    then (Option.map suc found, n ∷ rest)
    else (some 0, record { name = strncpy 63 n.name name; pid = pid; active = true } ∷ ns)

-- `registerNode` in the process `pid`; `none` is -1.
unfoldable pub register_node :
    (lock : ℕ) → List ℕ → ℕ → SystemManagerShm → Result (Option ℕ) × SystemManagerShm
unfolding occupy
register_node lock name pid m = elim (lock_robust lock) [
  | throw e ↦ (throw e, m)
  | ok _ ↦
      (let (found, nodes) = occupy name pid m.nodes in
        elim found [
          | none ↦ (ok none, m)
          | some i ↦ (ok (some i), record m { nodes = nodes; node_count = m.node_count + 1 })
        ])
]

-- Clear the `active` flag of slot `i`; true if it was set.
unfoldable pub vacate : ℕ → List NodeInfo → Bool × List NodeInfo
vacate i [] = (false, [])
vacate zero (n ∷ ns) = (n.active, record n { active = false } ∷ ns)
vacate (suc i) (n ∷ ns) = let (was, rest) = vacate i ns in (was, n ∷ rest)

-- `unregisterNode` of an id, -1 included.
unfoldable pub unregister_node :
    (lock : ℕ) → Option ℕ → SystemManagerShm → Result (Unit {0}) × SystemManagerShm
unfolding vacate
unregister_node lock none m = (ok tt, m)
unregister_node lock (some i) m = if leb max_nodes i then (ok tt, m) else elim (lock_robust lock) [
  | throw e ↦ (throw e, m)
  | ok _ ↦
      (let (was, nodes) = vacate i m.nodes in
        if was
        then (ok tt, record m { nodes = nodes; node_count = m.node_count - 1 })
        else (ok tt, m))
]

-- The lines of `listNodes`: name and process of each active node.
unfoldable pub active_nodes : List NodeInfo → List (List ℕ × ℕ)
active_nodes [] = []
active_nodes (n ∷ ns) =
    if n.active then (to_string n.name, n.pid) ∷ active_nodes ns else active_nodes ns

unfoldable pub list_nodes : (lock : ℕ) → SystemManagerShm → Result (List (List ℕ × ℕ))
unfolding active_nodes
list_nodes lock m = elim (lock_robust lock) [ ok _ ↦ ok (active_nodes m.nodes) | throw e ↦ throw e ]

-- The loop of `getNodePid`.
unfoldable pub find_pid : List ℕ → List NodeInfo → Option ℕ
unfolding same_text
find_pid name [] = none
find_pid name (n ∷ ns) =
    if n.active && same_text (to_string n.name) name then some n.pid else find_pid name ns

-- `getNodePid`; `none` is -1.
unfoldable pub get_node_pid : (lock : ℕ) → List ℕ → SystemManagerShm → Result (Option ℕ)
unfolding find_pid
get_node_pid lock name m = elim (lock_robust lock) [
  | ok _ ↦ ok (find_pid name m.nodes)
  | throw e ↦ throw e
]
