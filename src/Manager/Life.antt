-- ===== src/Manager/Life.antt =====
-- The life of a registry: what any number of processes do to it, over any kernel, one call at a time
-- under the manager's mutex.
use com_ipc.Common.{ℕ, ◌≡◌, List, Bool, Option, arith}
use com_ipc.Posix.{Posix}
use com_ipc.Manager.{SystemManagerShm, new_manager}
use com_ipc.Manager.Nodes.{register_node, unregister_node}
use com_ipc.Manager.Nodes.Laws
use com_ipc.Manager.Nodes.Laws.{register_node-IsValid, unregister_node-IsValid}
use com_ipc.Manager.Segments.{
  create_or_get_topic, create_or_get_service, create_topic, create_service,
}
use com_ipc.Manager.Segments.Registry
use com_ipc.Manager.Segments.Registry.{create_or_get_topic-IsValid, create_or_get_service-IsValid}

-- Two registries with the same nodes.
abbrev SameNodes : SystemManagerShm → SystemManagerShm → Type 0
SameNodes m m' = (m'.nodes ≡ m.nodes) × (m'.node_count ≡ m.node_count)

-- Two registries with the same topics and services.
abbrev pub SameEntries : SystemManagerShm → SystemManagerShm → Type 0
SameEntries m m' =
    (m'.topics ≡ m.topics)
    × (m'.topic_count ≡ m.topic_count)
    × (m'.services ≡ m.services)
    × (m'.service_count ≡ m.service_count)

pub register_node-SameEntries :
    (lock : ℕ) (name : List ℕ) (pid : ℕ) (m : SystemManagerShm)
    → SameEntries m (register_node lock name pid m).1
unfolding register_node
register_node-SameEntries lock name pid m = ground arith

pub unregister_node-SameEntries :
    (lock : ℕ) (id : Option ℕ) (m : SystemManagerShm) → SameEntries m (unregister_node lock id m).1
unfolding unregister_node
unregister_node-SameEntries lock id m = ground arith

module _ (P : Posix) where
  create_or_get_topic-SameNodes :
      (lock : ℕ) (name : List ℕ) (is_publisher : Bool) (m : SystemManagerShm) (os : P.Os)
      → SameNodes m (create_or_get_topic P lock name is_publisher m os).1
  unfolding create_or_get_topic create_topic
  create_or_get_topic-SameNodes lock name is_publisher m os = ground arith

  create_or_get_service-SameNodes :
      (lock : ℕ) (name : List ℕ) (is_server : Bool) (m : SystemManagerShm) (os : P.Os)
      → SameNodes m (create_or_get_service P lock name is_server m os).1
  unfolding create_or_get_service create_service
  create_or_get_service-SameNodes lock name is_server m os = ground arith

  -- A call of any process, with any name and whatever the lock and the kernel return.
  pub data Step (m : SystemManagerShm) : SystemManagerShm → Type 0 where
    topic :
        (lock : ℕ) (name : List ℕ) (is_publisher : Bool) (os : P.Os)
        → Step m (create_or_get_topic P lock name is_publisher m os).1
    service :
        (lock : ℕ) (name : List ℕ) (is_server : Bool) (os : P.Os)
        → Step m (create_or_get_service P lock name is_server m os).1
    joins : (lock : ℕ) (name : List ℕ) (pid : ℕ) → Step m (register_node lock name pid m).1
    leaves : (lock : ℕ) (id : Option ℕ) → Step m (unregister_node lock id m).1

  pub data Reach (m : SystemManagerShm) : SystemManagerShm → Type 0 where
    here : Reach m m
    next : {k l : SystemManagerShm} → Reach m k → Step k l → Reach m l

  -- Tables and counts of topics, services and nodes.
  pub record IsWellFormed (m : SystemManagerShm) : Type 0 where
    pub entries : Registry.IsValid m
    pub nodes : Laws.IsValid m

  pub new_manager-IsWellFormed : IsWellFormed new_manager
  new_manager-IsWellFormed = record {
    entries = Registry.new_manager-IsValid;
    nodes = Laws.new_manager-IsValid;
  }

  move_entries :
      (m m' : SystemManagerShm) → Registry.IsValid m → SameEntries m m' → Registry.IsValid m'
  move_entries m m' v (a, b, c, d) = record {
    topic_slots = rw a v.topic_slots;
    topic_bound = rw b v.topic_bound;
    topic_fields = rw a v.topic_fields;
    service_slots = rw c v.service_slots;
    service_bound = rw d v.service_bound;
    service_fields = rw c v.service_fields;
  }

  move_nodes : (m m' : SystemManagerShm) → Laws.IsValid m → SameNodes m m' → Laws.IsValid m'
  move_nodes m m' v (a, b) = record {
    slots = rw a v.slots;
    fields = rw a v.fields;
    counted = rw (a, b) v.counted;
  }

  Step-IsWellFormed : (m m' : SystemManagerShm) → IsWellFormed m → Step m m' → IsWellFormed m'
  Step-IsWellFormed m m' v (topic lock name is_publisher os) = record {
    entries = create_or_get_topic-IsValid P lock name is_publisher os v.entries;
    nodes = move_nodes m _ v.nodes (create_or_get_topic-SameNodes lock name is_publisher m os);
  }
  Step-IsWellFormed m m' v (service lock name is_server os) = record {
    entries = create_or_get_service-IsValid P lock name is_server os v.entries;
    nodes = move_nodes m _ v.nodes (create_or_get_service-SameNodes lock name is_server m os);
  }
  Step-IsWellFormed m m' v (joins lock name pid) = record {
    entries = move_entries m _ v.entries (register_node-SameEntries lock name pid m);
    nodes = register_node-IsValid lock name pid v.nodes;
  }
  Step-IsWellFormed m m' v (leaves lock id) = record {
    entries = move_entries m _ v.entries (unregister_node-SameEntries lock id m);
    nodes = unregister_node-IsValid lock id v.nodes;
  }

  Reach-IsWellFormed : (m m' : SystemManagerShm) → IsWellFormed m → Reach m m' → IsWellFormed m'
  Reach-IsWellFormed m m' v here = v
  Reach-IsWellFormed m m' v (next {k} r s) = Step-IsWellFormed k m' (Reach-IsWellFormed m k v r) s

  -- Whatever calls processes make, in any order and with any outcome of locks and kernel, the
  -- registry that the first creator set up stays well-formed: the tables keep their slots, the counts
  -- of topics and services stay within them, every name field ends in a zero, and the count of nodes
  -- is the number of active slots.
  pub reached-IsWellFormed : (m : SystemManagerShm) → Reach new_manager m → IsWellFormed m
  reached-IsWellFormed m r = Reach-IsWellFormed new_manager m new_manager-IsWellFormed r
