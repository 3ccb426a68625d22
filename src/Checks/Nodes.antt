-- ===== src/Checks/Nodes.antt =====
-- Nodes and the life of the registry.
use com_ipc.Common.{◌≡◌, refl, true, ok, lock_robust, arith}
use com_ipc.Manager.{SystemManagerShm, new_manager}
use com_ipc.Manager.Life
use com_ipc.Manager.Life.{reached-IsWellFormed}
use com_ipc.Manager.Nodes.{register_node, unregister_node, get_node_pid}
use com_ipc.Manager.Nodes.Laws
use com_ipc.Manager.Nodes.Directory.{registers, Does, Answers, Step-Change}
use com_ipc.Node.{Node, create, destroy, kill, signalled, not_found}
use com_ipc.Node.Life.{kill-create}
use com_ipc.Checks.Registry.{
  one_segment, kernel, camera, lidar, lidar-camera, with_camera, with_node,
}
use com_ipc.Common.{some}

kill-create_example :
    (node : Node) × (m' : SystemManagerShm) × (create 0 camera 41 new_manager ≡ (ok node, m'))
    × (kill 0 camera m' ≡ signalled 41)
    × (kill 0 lidar m' ≡ kill 0 lidar new_manager)
    × (kill 0 camera (destroy 0 node m').1 ≡ not_found)
    × (kill 0 lidar (destroy 0 node m').1 ≡ kill 0 lidar new_manager)
unfolding get_node_pid lock_robust
kill-create_example =
    kill-create camera lidar 41 new_manager Laws.new_manager-IsValid (omega arith) (omega arith)
      (omega arith) lidar-camera refl (omega arith)

Step-Change_example :
    Laws.IsValid with_node × Does (registers camera 41) new_manager with_node × Answers with_node
Step-Change_example =
    Step-Change (registers camera 41) new_manager Laws.new_manager-IsValid (omega arith)

-- A second node of a name, and what the first one leaves.
twice :
    let m = (register_node 0 camera 42 with_node).1 in
    (get_node_pid 0 camera m ≡ ok (some 41))
    × (get_node_pid 0 camera (unregister_node 0 (some 0) m).1 ≡ ok (some 42))
unfolding get_node_pid register_node unregister_node lock_robust com_ipc.CString.to_string
    com_ipc.CString.strncpy
twice = (refl, refl)

reached-IsWellFormed_example : Life.IsWellFormed one_segment with_camera
reached-IsWellFormed_example =
    reached-IsWellFormed one_segment with_camera
      (Life.next Life.here (Life.topic 0 camera true kernel))
