-- ===== src/Node/Names.antt =====
-- Nodes whose names do not fit the register (src/system_manager.cpp, tools/com_node.cpp).
use com_ipc.Common.{
  ℕ, zero, suc, ◌≤◌, ◌<◌, ◌≡◌, refl, ap, List, [], ◌∷◌, false, Option, none, Result, ok, length,
  lock_robust, arith, inl, inr, Bool-cases,
}
use mathlib.Core.Path.{subst}
use com_ipc.CString.{IsField, IsField-tail, to_string}
use com_ipc.Manager.{NodeInfo, SystemManagerShm}
use com_ipc.Manager.Nodes.{same_text, find_pid, get_node_pid}
use com_ipc.Manager.Nodes.Laws
use com_ipc.Manager.Nodes.Laws.{same_text_iff, register_node-IsValid}
use com_ipc.Types.{max_nodes}
use com_ipc.Node.{Node, create, kill, not_found}
use com_ipc.Node.Life.{node_at, register_node_at, create-register_node}

length-to_string : (n : ℕ) (field : List ℕ) → IsField n field → length (to_string field) ≤ n
unfolding to_string
length-to_string n [] f = omega arith
length-to_string zero (c ∷ cs) f = ground (arith, f.ended)
length-to_string (suc n) (c ∷ cs) f = ground (arith, length-to_string n cs (IsField-tail f))

same_text_long :
    (field name : List ℕ)
    → IsField 63 field
    → 63 < length name
    → same_text (to_string field) name ≡ false
same_text_long field name f long = elim (Bool-cases (same_text (to_string field) name)) [
  | inr e ↦ e
  | inl e ↦
      let same = ap length (same_text_iff (to_string field) name e) in
      absurd (omega (arith, same, length-to_string 63 field f))
]

find_pid_long :
    (name : List ℕ) (ns : List NodeInfo)
    → 63 < length name
    → Laws.AreFields ns
    → find_pid name ns ≡ none
unfolding find_pid
find_pid_long name [] long v = refl
find_pid_long name (n ∷ ns) long v =
    ground (arith, same_text_long n.name name v.0 long, find_pid_long name ns long v.1)

kill_long :
    (name : List ℕ) (m : SystemManagerShm)
    → Laws.IsValid m
    → 63 < length name
    → kill 0 name m ≡ not_found
unfolding kill get_node_pid lock_robust
kill_long name m v long = rw (find_pid_long name m.nodes long v.fields)

-- A node under a name of 64 characters or more registers with success in a valid register with room
-- for it, if the lock is free, and `com_node kill` of its name then finds no such node.
pub kill-create_long :
    (name : List ℕ) (pid : ℕ) (m : SystemManagerShm)
    → Laws.IsValid m
    → m.node_count < max_nodes
    → 63 < length name
    → (node : Node) × (m' : SystemManagerShm) × (create 0 name pid m ≡ (ok node, m'))
      × (kill 0 name m' ≡ not_found)
kill-create_long name pid m v room long =
    let (i, m', e) = register_node_at name name pid m v room in
    (
      node_at name name pid m i,
      m',
      create-register_node name name pid m i m' e,
      kill_long name m'
          (subst (λ (r : Result (Option ℕ) × SystemManagerShm). Laws.IsValid r.1) e
            (register_node-IsValid 0 name pid v))
          long,
    )
