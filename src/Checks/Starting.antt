-- ===== src/Checks/Starting.antt =====
-- Threads, both sides of an action, and nodes and pools that are set up.
use com_ipc.Common.{◌≡◌, ◌⊎◌, refl, [], ◌∷◌, true, false, some, ok, Error, lock_robust, arith}
use com_ipc.Manager.{SystemManagerShm, new_manager}
use com_ipc.Types.{ServiceShm}
use com_ipc.Manager.Life
use com_ipc.Manager.Nodes.Laws
use com_ipc.Manager.Segments.Registry
use com_ipc.Service.{Wake, ServiceClient, post}
use com_ipc.Service.Silence.{has_reply}
use com_ipc.Manager.Nodes.{register_node}
use com_ipc.Endpoint.FirstCall.{first_call}
use com_ipc.Service.{ServiceCallback, call, serve, replied}
use com_ipc.Endpoint.{service_server, service_client, Turn, built, polling, threw}
use com_ipc.Worker.{no_thread}
use com_ipc.Node.{Node, create, kill, not_found}
use com_ipc.Node.Names.{kill-create_long}
use com_ipc.Action.{cancel_goal}
use com_ipc.Action.Opening.{
  ServerTurns, ServerParts, action_server, publisher_at, goal_topic, start_server,
}
use com_ipc.Action.Opening.Names.{action_server_long}
use com_ipc.Action.Opening.Cancelling.{cancel_goal_unserved, asks, nothing, then_event}
use com_ipc.Checks.Calls.{free_channel}
use com_ipc.Checks.Registry.{lidar, one_segment, kernel, camera, long_name}

kill-create_long_example :
    (node : Node) × (m' : SystemManagerShm) × (create 0 long_name 41 new_manager ≡ (ok node, m'))
    × (kill 0 long_name m' ≡ not_found)
kill-create_long_example =
    kill-create_long long_name 41 new_manager Laws.new_manager-IsValid (omega arith) (omega arith)

abbrev early : Turn one_segment
early = record { shutdown = false; lock = 0; manager = new_manager; os = kernel }

abbrev after_goal : Turn one_segment
after_goal = record early { manager = (publisher_at one_segment (goal_topic camera) early).1 }

abbrev calm : ServerTurns one_segment
calm = record {
  goal = early;
  goal_turns = after_goal ∷ [];
  feedback = after_goal;
  result = after_goal;
  cancel = after_goal;
}

abbrev slow : ServerTurns one_segment
slow = record calm { goal_turns = early ∷ early ∷ [] }

action_server_long_example :
    (action_server one_segment long_name slow ≡ polling)
    ⊎ ((x : Error) × (action_server one_segment long_name slow ≡ threw x))
action_server_long_example =
    action_server_long one_segment long_name slow (omega arith) (omega arith)
      ((refl, refl), Registry.new_manager-IsValid, ((refl, refl), Registry.new_manager-IsValid, tt))

abbrev opened_server : ServerParts
opened_server = record {
  goal_pub = 4096;
  goal_sub = record { mapped = true; last_seq = 0 };
  feedback_pub = 4096;
  result_pub = 4096;
  cancel_srv = 4096;
  process = no_thread;
  cancelling = no_thread;
}

made : action_server one_segment camera calm ≡ built opened_server
unfolding com_ipc.Manager.registered com_ipc.Manager.Segments.create_or_get_topic
    com_ipc.Manager.Segments.create_or_get_service com_ipc.Endpoint.publisher
    com_ipc.Endpoint.service_server com_ipc.Endpoint.subscriber com_ipc.CString.same_chars
    com_ipc.CString.strncpy action_server com_ipc.Action.Opening.open_server lock_robust
made = refl

abbrev client : ServiceClient
client = record { mapped = true; next_req_id = 0 }

abbrev unanswered : Wake
unanswered = record { ret = 0; shm = post 41 1 (7 ∷ []) free_channel; shutdown = false }

cancel_goal_unserved_example :
    let (_, ended, success) = cancel_goal 41 7 client 0 false free_channel (unanswered ∷ []) in
    (has_reply ended ≡ false) × (success ≡ false)
cancel_goal_unserved_example =
    cancel_goal_unserved one_segment camera calm opened_server free_channel 41 7 client 0 false
      free_channel (unanswered ∷ []) made refl
      ((opened_server, then_event nothing (asks 41 1 (7 ∷ []))), tt)

-- A server, a node that joins, and a client, which looks once too early.
abbrev with_service : SystemManagerShm
with_service = (service_server one_segment 0 camera new_manager kernel).1

abbrev served : one_segment.Os
served = (service_server one_segment 0 camera new_manager kernel).2

abbrev behind : Turn one_segment
behind = record {
  shutdown = false;
  lock = 0;
  manager = (register_node 0 lidar 42 with_service).1;
  os = served;
}

abbrev echo : ServiceCallback
echo bytes size = some bytes

abbrev asked_first : ServiceShm
asked_first = post 41 1 (7 ∷ 8 ∷ []) served.service

first_call_example :
    (service_client one_segment camera (early ∷ behind ∷ []) ≡ built (some 4096, served))
    × (end : ServiceShm) × (call 41
          (7 ∷ 8 ∷ [])
          2
          client
          0
          false
          served.service
          (record { ret = 0; shm = serve echo asked_first asked_first; shutdown = false } ∷ [])
        ≡ (record client { next_req_id = 1 }, replied (7 ∷ 8 ∷ []) end))
unfolding com_ipc.Manager.registered com_ipc.Manager.Segments.create_or_get_service
    com_ipc.Endpoint.service_server com_ipc.Manager.Segments.open_file
    com_ipc.Manager.Segments.map_file lock_robust
first_call_example =
    first_call one_segment (λ a s os. refl) camera new_manager with_service kernel served 4096
      (early ∷ []) behind [] 4096 served echo 41 (7 ∷ 8 ∷ []) (7 ∷ 8 ∷ []) []
      Registry.new_manager-IsValid (omega arith) (omega arith) refl
      (refl, (new_manager, kernel, refl), tt) (refl, refl)
      (Life.next Life.here (Life.joins 0 lidar 42)) refl refl refl (omega arith)
