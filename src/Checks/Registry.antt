-- ===== src/Checks/Registry.antt =====
-- The registry, over a kernel in which every call succeeds on one segment.
use com_ipc.Common.{
  ℕ, ◌≡◌, ◌≢◌, refl, ap, List, [], ◌∷◌, true, false, some, ok, lock_robust, arith, length,
  replicate,
}
use com_ipc.CString.{strncpy, same_chars, to_string}
use com_ipc.Types.{TopicShm, ServiceShm, new_topic}
use com_ipc.Posix.{Posix, opened}
use com_ipc.Manager.{SystemManagerShm, new_manager, registered, list_topics}
use com_ipc.Manager.Nodes.{register_node}
use com_ipc.Manager.Segments.{create_or_get_topic}
use com_ipc.Checks.Calls.{free_channel}

abbrev pub one_segment : Posix
one_segment = record {
  Os = record { topic : TopicShm; service : ServiceShm };
  shm_open_new = λ name os. (opened 3, os);
  shm_open = λ name os. (opened 3, os);
  shm_unlink = λ name os. os;
  ftruncate = λ fd kind os. (true, os);
  mmap = λ fd kind os. (some 4096, os);
  munmap = λ address kind os. os;
  close = λ fd os. os;
  mutex_lock = λ address os. (0, os);
  mutex_unlock = λ address os. os;
  load_topic = λ address os. os.topic;
  store_topic = λ address t os. record { topic = t; service = os.service };
  load_service = λ address os. os.service;
  store_service = λ address s os. record { topic = os.topic; service = s };
}

abbrev pub kernel : one_segment.Os
kernel = record { topic = new_topic; service = free_channel }

abbrev pub camera : List ℕ
camera = 99 ∷ 97 ∷ 109 ∷ []

abbrev pub lidar : List ℕ
lidar = 108 ∷ 105 ∷ []

pub lidar-camera : lidar ≢ camera
lidar-camera e = ground (arith, ap length e)

abbrev pub with_camera : SystemManagerShm
with_camera = (create_or_get_topic one_segment 0 camera true new_manager kernel).1

listed : list_topics 0 with_camera ≡ ok (camera ∷ [])
unfolding list_topics create_or_get_topic registered to_string strncpy lock_robust
listed = refl

subscribed :
    (create_or_get_topic one_segment 0 camera false with_camera kernel).2.topic.active_subscribers
    ≡ 1
unfolding create_or_get_topic registered strncpy same_chars lock_robust
subscribed = refl

abbrev pub long_name : List ℕ
long_name = replicate 64 97

abbrev pub with_node : SystemManagerShm
with_node = (register_node 0 camera 41 new_manager).1
