-- ===== src/Manager.antt =====
-- The registry: inc/system_manager.h and src/system_manager.cpp over the layout of
-- inc/com_ipc_types.h. The manager's shared memory is a record; an operation takes what
-- `pthread_mutex_lock` of the manager's mutex returned, and throws if that is an error.
pub mod Nodes
pub mod Segments
pub mod Life
pub mod Growth
pub mod Services
use com_ipc.Common.{
  ℕ, zero, suc, ◌+◌, ◌-◌, ◌≡◌, List, [], ◌∷◌, Bool, true, false, Option, none, some, Result, ok,
  throw, lock_robust, if◌then◌else◌, ◌&&◌, ◌==◌, replicate, get_elem?, set, map, length,
}
use com_ipc.CString.{strncpy, same_chars, to_string}
use com_ipc.Types.{max_topics, max_services, max_nodes}

-- `TopicInfo` and `ServiceInfo`, which have the same fields.
pub record Entry : Type 0 where
  pub name : List ℕ
  pub active : Bool

-- `NodeInfo`
pub record NodeInfo : Type 0 where
  pub name : List ℕ
  pub pid : ℕ
  pub active : Bool

-- `SystemManagerShm`, without its mutex.
pub record SystemManagerShm : Type 0 where
  pub topic_count : ℕ
  pub topics : List Entry
  pub service_count : ℕ
  pub services : List Entry
  pub node_count : ℕ
  pub nodes : List NodeInfo

-- `char name[64]`
abbrev pub no_name : List ℕ
no_name = replicate 64 0

abbrev pub no_entry : Entry
no_entry = record { name = no_name; active = false }

abbrev pub no_node : NodeInfo
no_node = record { name = no_name; pid = 0; active = false }

-- What the constructor leaves in the zeroed memory of the first creator.
abbrev pub new_manager : SystemManagerShm
new_manager = record {
  topic_count = 0;
  topics = replicate max_topics no_entry;
  service_count = 0;
  services = replicate max_services no_entry;
  node_count = 0;
  nodes = replicate max_nodes no_node;
}

-- The test of the lookup loops: `active && strncmp(entry.name, name.c_str(), 64) == 0`.
abbrev pub matches : List ℕ → Entry → Bool
matches name e = e.active && same_chars 64 e.name name

-- The lookup loop over the first `count` entries: is there one?
unfoldable pub registered : ℕ → List Entry → List ℕ → Bool
registered zero es name = false
registered (suc n) [] name = false
registered (suc n) (e ∷ es) name =
    let rest = registered n es name in if matches name e then true else rest

-- `int idx = count++; strncpy(entries[idx].name, name, 63); entries[idx].active = true`
abbrev pub entered : List ℕ → Entry → Entry
entered name e = record e { name = strncpy 63 e.name name; active = true }

unfoldable pub enter : ℕ → List ℕ → List Entry → List Entry
enter i name [] = []
enter zero name (e ∷ es) = entered name e ∷ es
enter (suc i) name (e ∷ es) = e ∷ enter i name es

-- The names that a listing loop prints.
unfoldable pub active_names : ℕ → List Entry → List (List ℕ)
active_names zero es = []
active_names (suc n) [] = []
active_names (suc n) (e ∷ es) =
    let rest = active_names n es in if e.active then to_string e.name ∷ rest else rest

-- `listTopics`
unfoldable pub list_topics : ℕ → SystemManagerShm → Result (List (List ℕ))
unfolding active_names
list_topics lock m = elim (lock_robust lock) [
  | ok _ ↦ ok (active_names m.topic_count m.topics)
  | throw e ↦ throw e
]
