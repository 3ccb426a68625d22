-- ===== src/Node/Life.antt =====
-- The life of a node (src/node.cpp), and killing it by its name (tools/com_node.cpp).
use com_ipc.Common.{
  ℕ, ◌≤◌, ◌<◌, ◌≡◌, ◌≢◌, ap, ◌∙◌, inl, inr, List, [], some, none, ok, length, arith,
}
use com_ipc.CString.{IsText}
use com_ipc.Types.{max_nodes}
use com_ipc.Manager.{SystemManagerShm}
use com_ipc.Manager.Nodes.{register_node, get_node_pid}
use com_ipc.Manager.Nodes.Laws
use com_ipc.Manager.Nodes.Laws.{
  register_node_room, get_node_pid-register_node, unregister_node-register_node,
}
use com_ipc.Node.{Node, create, new_node, destroy, kill, signal, signalled, not_found}

module _ (name other : List ℕ) (pid : ℕ) (m : SystemManagerShm) where
  abbrev pub node_at : ℕ → Node
  node_at i = record { node_id = some i; name = name; publishers = []; subscribers = [] }

  pub create-register_node :
      (i : ℕ) (m' : SystemManagerShm)
      → register_node 0 name pid m ≡ (ok (some i), m')
      → create 0 name pid m ≡ (ok (node_at i), m')
  unfolding create
  create-register_node i m' e = ap (new_node name) e

  pub register_node_at :
      Laws.IsValid m
      → m.node_count < max_nodes
      → (i : ℕ) × (m' : SystemManagerShm) × (register_node 0 name pid m ≡ (ok (some i), m'))
  register_node_at v room = elim (register_node_room name pid m v) [
    | inl (full, _) ↦ absurd (omega arith)
    | inr (_, (i, _, e)) ↦
        (i, (register_node 0 name pid m).1, ap (λ r. (r, (register_node 0 name pid m).1)) e)
  ]

  -- Where the register is valid and has room, a node of a process with a positive id, under a free
  -- name of at most 63 characters (none of them zero), is killed under that name by a signal to this
  -- process; after its destructor there is no such node any more. Every other name is killed, or not
  -- found, as before all this, both times.
  pub kill-create :
      Laws.IsValid m
      → m.node_count < max_nodes
      → IsText name
      → length name ≤ 63
      → other ≢ name
      → get_node_pid 0 name m ≡ ok none
      → 0 < pid
      → (node : Node) × (m' : SystemManagerShm) × (create 0 name pid m ≡ (ok node, m'))
        × (kill 0 name m' ≡ signalled pid)
        × (kill 0 other m' ≡ kill 0 other m)
        × (kill 0 name (destroy 0 node m').1 ≡ not_found)
        × (kill 0 other (destroy 0 node m').1 ≡ kill 0 other m)
  unfolding destroy kill
  kill-create v room text fits ne free pos =
      let (i, m', e) = register_node_at v room in
      let (found, same) = get_node_pid-register_node name other pid i v text fits ne free e in
      let (_, _, gone) = unregister_node-register_node name name pid i v e in
      let (_, _, back) = unregister_node-register_node name other pid i v e in
      (
        node_at i,
        m',
        create-register_node i m' e,
        ap signal found ∙ ground arith,
        ap signal same,
        ap signal (gone ∙ free),
        ap signal back,
      )
