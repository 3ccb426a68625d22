-- ===== src/Manager/Segments.antt =====
-- The segments of topics and services: createOrGetTopic and createOrGetService of
-- src/system_manager.cpp, over any kernel. An operation takes the manager's record and the kernel's
-- state and gives both back; `none` is the null pointer.
pub mod Names
pub mod Registry
use com_ipc.Common.{
  ℕ, zero, suc, ◌+◌, List, [], ◌∷◌, ◌++◌, Bool, true, false, not, Option, none, some, Result, ok,
  throw, lock_robust, if◌then◌else◌, ◌&&◌, ◌==◌, leb, map,
}
use Prim.Native.Nat.{◌≤◌}
use com_ipc.Types.{TopicShm, ServiceShm, max_topics, max_services}
use com_ipc.Posix.{Posix, Opened, opened, refused, eexist, Segment, topic_shm, service_shm}
use com_ipc.Manager.{SystemManagerShm, Entry, registered, enter}

-- `SHM_TOPIC_PREFIX` and `SHM_SERVICE_PREFIX` behind their first `/`: "ros_ipc_topic_" and
-- "ros_ipc_service_".
abbrev pub topic_prefix : List ℕ
topic_prefix =
    b'r' ∷ b'o' ∷ b's' ∷ b'_' ∷ b'i' ∷ b'p' ∷ b'c' ∷ b'_' ∷ b't' ∷ b'o' ∷ b'p' ∷ b'i' ∷ b'c' ∷ b'_'
    ∷ []

abbrev pub service_prefix : List ℕ
service_prefix =
    b'r' ∷ b'o' ∷ b's' ∷ b'_' ∷ b'i' ∷ b'p' ∷ b'c' ∷ b'_' ∷ b's' ∷ b'e' ∷ b'r' ∷ b'v' ∷ b'i' ∷ b'c'
    ∷ b'e' ∷ b'_' ∷ []

-- `if (shm_name[i] == '/') shm_name[i] = '_'`
abbrev pub flatten_char : ℕ → ℕ
flatten_char c = if c == b'/' then b'_' else c

-- The name of the file: prefix and name, with each `/` but the first replaced.
unfoldable pub shm_name : List ℕ → List ℕ → List ℕ
shm_name prefix name = b'/' ∷ map flatten_char (prefix ++ name)

module _ (P : Posix) where
  open P use {
    Os, shm_open_new, shm_open, shm_unlink, ftruncate, mmap, close, mutex_lock, mutex_unlock,
    load_topic, store_topic, load_service, store_service,
  }

  -- Map an open file and close its descriptor.
  unfoldable pub map_file : Segment → ℕ → Os → Option ℕ × Os
  map_file kind fd os = let (address, os1) = mmap fd kind os in (address, close fd os1)

  -- Size a new file, map it and close its descriptor.
  unfoldable pub size_file : Segment → ℕ → Os → Option ℕ × Os
  unfolding map_file
  size_file kind fd os =
      let (sized, os1) = ftruncate fd kind os in
      if sized then map_file kind fd os1 else (none, close fd os1)

  abbrev pub size_opened : Segment → Opened × Os → Option ℕ × Os
  size_opened kind (opened fd, os) = size_file kind fd os
  size_opened kind (refused e, os) = (none, os)

  -- Create a new file; a file that is left over under the name is removed first.
  unfoldable pub create_file : Segment → List ℕ → Opened × Os → Option ℕ × Os
  unfolding size_file
  create_file kind file (opened fd, os) = size_file kind fd os
  create_file kind file (refused e, os) =
      if e == eexist then size_opened kind (shm_open_new file (shm_unlink file os)) else (none, os)

  -- Open an existing file and map it.
  unfoldable pub open_file : Segment → List ℕ → Os → Option ℕ × Os
  unfolding map_file
  open_file kind file os =
      let (r, os1) = shm_open file os in
      elim r [ opened fd ↦ map_file kind fd os1 | refused e ↦ (none, os1) ]

  -- `active_subscribers++` of the topic at an address, under its mutex.
  unfoldable pub count_subscriber : ℕ → Os → Result (Option ℕ) × Os
  count_subscriber address os =
      let (ret, os1) = mutex_lock address os in
      elim (lock_robust ret) [
        | throw e ↦ (throw e, os1)
        | ok _ ↦
            (let t = load_topic address os1 in
              (
                ok (some address),
                mutex_unlock address (
                    store_topic address (record t { active_subscribers = t.active_subscribers + 1 })
                      os1),
              ))
      ]

  -- The branch for a topic that is registered.
  unfoldable pub get_topic : List ℕ → Bool → Os → Result (Option ℕ) × Os
  unfolding open_file count_subscriber
  get_topic name is_publisher os =
      let (found, os1) = open_file topic_shm (shm_name topic_prefix name) os in
      elim found [
        | none ↦ (ok none, os1)
        | some address ↦
            (if is_publisher then (ok (some address), os1) else count_subscriber address os1)
      ]

  -- The fields of a new topic.
  abbrev pub init_topic : ℕ → Os → Os
  init_topic address os =
      store_topic address
        (record (load_topic address os) { write_index = 0; seq = 0; active_subscribers = 0 }) os

  -- The branch for a topic that is not: only a publisher creates it, and only if there is room.
  unfoldable pub create_topic :
      List ℕ → Bool → SystemManagerShm → Os → Option ℕ × SystemManagerShm × Os
  unfolding create_file enter
  create_topic name is_publisher m os =
      if not is_publisher
      then (none, m, os)
      else if leb max_topics m.topic_count
      then (none, m, os)
      else let file = shm_name topic_prefix name in
        let (created, os1) = create_file topic_shm file (shm_open_new file os) in
        elim created [
          | none ↦ (none, m, os1)
          | some address ↦ (
            some address,
            record m {
              topics = enter m.topic_count name m.topics;
              topic_count = m.topic_count + 1;
            },
            init_topic address os1,
          )
        ]

  -- `createOrGetTopic`, over what locking the manager's mutex returned.
  unfoldable pub create_or_get_topic :
      (lock : ℕ) → List ℕ → Bool → SystemManagerShm → Os → Result (Option ℕ) × SystemManagerShm × Os
  unfolding get_topic create_topic
  create_or_get_topic lock name is_publisher m os = elim (lock_robust lock) [
    | throw e ↦ (throw e, m, os)
    | ok _ ↦
        (if registered m.topic_count m.topics name
          then (let (r, os1) = get_topic name is_publisher os in (r, m, os1))
          else (let (r, m1, os1) = create_topic name is_publisher m os in (ok r, m1, os1)))
  ]

  -- The fields of a new service.
  abbrev pub init_service : ℕ → Os → Os
  init_service address os =
      store_service address
        (record (load_service address os) { has_request = false; has_response = false }) os

  abbrev pub init_created : Option ℕ × Os → Option ℕ × Os
  init_created (none, os) = (none, os)
  init_created (some address, os) = (some address, init_service address os)

  -- The branch for a service that is registered: a server that starts again wipes the segment, a
  -- client opens it.
  unfoldable pub get_service : List ℕ → Bool → Os → Option ℕ × Os
  unfolding open_file size_file
  get_service name is_server os =
      let file = shm_name service_prefix name in
      if is_server
      then init_created (size_opened service_shm (shm_open_new file (shm_unlink file os)))
      else open_file service_shm file os

  unfoldable pub create_service :
      List ℕ → Bool → SystemManagerShm → Os → Option ℕ × SystemManagerShm × Os
  unfolding create_file enter
  create_service name is_server m os =
      if not is_server
      then (none, m, os)
      else if leb max_services m.service_count
      then (none, m, os)
      else let file = shm_name service_prefix name in
        let (created, os1) = create_file service_shm file (shm_open_new file os) in
        elim created [
          | none ↦ (none, m, os1)
          | some address ↦ (
            some address,
            record m {
              services = enter m.service_count name m.services;
              service_count = m.service_count + 1;
            },
            init_service address os1,
          )
        ]

  -- `createOrGetService`, over what locking the manager's mutex returned.
  unfoldable pub create_or_get_service :
      (lock : ℕ) → List ℕ → Bool → SystemManagerShm → Os → Result (Option ℕ) × SystemManagerShm × Os
  unfolding get_service create_service
  create_or_get_service lock name is_server m os = elim (lock_robust lock) [
    | throw e ↦ (throw e, m, os)
    | ok _ ↦
        (if registered m.service_count m.services name
          then (let (r, os1) = get_service name is_server os in (ok r, m, os1))
          else (let (r, m1, os1) = create_service name is_server m os in (ok r, m1, os1)))
  ]
