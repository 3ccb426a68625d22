-- ===== src/Checks/Filing.antt =====
-- A kernel with files, and the first message of a topic on it.
use com_ipc.Common.{
  ℕ, ◌+◌, ◌≡◌, refl, sym, ap, List, [], ◌∷◌, true, false, Option, some, none, ok, if◌then◌else◌,
  ◌==◌, lock_robust, arith,
}
use com_ipc.Common.Int.{pos}
use com_ipc.Types.{TopicShm, ServiceShm, new_topic}
use com_ipc.Posix.{Posix, Opened, opened, refused}
use com_ipc.Manager.{SystemManagerShm, new_manager, registered}
use com_ipc.Manager.Life
use com_ipc.Manager.Nodes.{same_text, register_node}
use com_ipc.Manager.Nodes.Laws.{same_text_refl}
use com_ipc.Manager.Segments.{create_or_get_topic, shm_name, topic_prefix}
use com_ipc.Manager.Segments.Registry
use com_ipc.Pool.{init, deposit}
use com_ipc.Topic.{Shm, enqueue, publish_raw}
use com_ipc.Topic.Ring.{new_topic-IsValid}
use com_ipc.Subscriber.{Subscriber, Frame, receive_raw, receive_size, done}
use com_ipc.Endpoint.{Turn, built, publisher, subscriber}
use com_ipc.Endpoint.Polling.{IsQuiet, joined, settled}
use com_ipc.Endpoint.Files.{Files}
use com_ipc.Endpoint.FirstMessage.{first_message}
use com_ipc.Checks.Calls.{free_channel}
use com_ipc.Checks.Fixtures.{quiet}
use com_ipc.Checks.Registry.{camera, lidar}

-- The names of the files, their topics, and the number of the next file. Descriptors and addresses
-- are the numbers of the files.
record Disk : Type 0 where
  names : List ℕ → Option ℕ
  topics : ℕ → TopicShm
  service : ServiceShm
  next : ℕ

abbrev new_file : List ℕ → Option ℕ → Disk → Opened × Disk
new_file file (some f) os = (refused 17, os)
new_file file none os = (
  opened os.next,
  record os {
    names = λ k. if same_text file k then some os.next else os.names k;
    next = os.next + 1;
  },
)

abbrev old_file : Option ℕ → Disk → Opened × Disk
old_file (some f) os = (opened f, os)
old_file none os = (refused 2, os)

abbrev filing : Posix
filing = record {
  Os = Disk;
  shm_open_new = λ file os. new_file file (os.names file) os;
  shm_open = λ file os. old_file (os.names file) os;
  shm_unlink = λ file os. record os { names = λ k. if same_text file k then none else os.names k };
  ftruncate = λ fd kind os. (true, os);
  mmap = λ fd kind os. (some fd, os);
  munmap = λ address kind os. os;
  close = λ fd os. os;
  mutex_lock = λ address os. (0, os);
  mutex_unlock = λ address os. os;
  load_topic = λ address os. os.topics address;
  store_topic = λ address t os. record os { topics = λ f. if f == address then t else os.topics f };
  load_service = λ address os. os.service;
  store_service = λ address s os. record os { service = s };
}

new_file-names :
    (file : List ℕ) (fd : ℕ) (found : Option ℕ) (os : Disk)
    → (new_file file found os).0 ≡ opened fd
    → some fd ≡ (new_file file found os).1.names file
new_file-names file fd (some f) os e = cc
new_file-names file fd none os e = ground (arith, same_text_refl file)

old_file-names :
    (fd : ℕ) (found : Option ℕ) (os : Disk)
    → (old_file found os).0 ≡ opened fd
    → (some fd ≡ found) × ((old_file found os).1 ≡ os)
old_file-names fd (some f) os e = (ground arith, refl)
old_file-names fd none os e = cc

same_topic : (a b : ℕ) (os : Disk) → some a ≡ some b → os.topics a ≡ os.topics b
same_topic a b os e = let f : a ≡ b = ground arith in ap os.topics f

stored_topic : (a : ℕ) (t : TopicShm) (os : Disk) → (if a == a then t else os.topics a) ≡ t
stored_topic a t os = ground arith

abbrev by_number : Files filing
by_number = record {
  named = λ file os. os.names file;
  described = λ fd os. some fd;
  mapped = λ a os. some a;
  open_new = λ file fd os e. new_file-names file fd (os.names file) os e;
  open_old = λ file fd os e. (
    (old_file-names fd (os.names file) os e).0,
    ap (λ (d : Disk). d.names file) (old_file-names fd (os.names file) os e).1,
  );
  sized = λ file fd kind os. (refl, refl);
  at_address = λ fd a kind os e. sym e;
  of_mmap = λ file fd kind os. refl;
  of_close = λ file fd a os. (refl, refl);
  of_lock = λ a b os. refl;
  of_unlock = λ a b os. refl;
  of_store = λ file a b t os. (refl, refl);
  one_memory = λ a b os e. same_topic a b os e;
}

quiet_disk : IsQuiet filing
quiet_disk = record {
  lock_free = λ a os. refl;
  load-lock = λ a os. refl;
  load-unlock = λ a os. refl;
  load-store = λ a t os. stored_topic a t os;
}

abbrev empty_disk : Disk
empty_disk = record {
  names = λ file. none;
  topics = λ f. new_topic;
  service = free_channel;
  next = 5;
}

-- The publisher's turn.
abbrev opening : SystemManagerShm × Disk
opening =
    let (r, m, os) = create_or_get_topic filing 0 camera true new_manager empty_disk in (m, os)

made : publisher filing 0 camera new_manager empty_disk ≡ (ok 5, opening.0, opening.1)
unfolding publisher registered create_or_get_topic lock_robust
made = refl

-- A round before the topic is registered, and one after a node has joined.
abbrev early : Turn filing
early = record { shutdown = false; lock = 0; manager = new_manager; os = empty_disk }

abbrev joined_later : Turn filing
joined_later = record {
  shutdown = false;
  lock = 0;
  manager = (register_node 0 lidar 42 opening.0).1;
  os = opening.1;
}

abbrev sent : Shm
sent =
    (publish_raw quiet (7 ∷ 8 ∷ []) 4
      (record { pool = init (λ a. 0); topic = joined filing new_topic })).1

first_message_example :
    let stored : Disk = filing.store_topic 5 sent.topic (settled filing 5 opening.1) in
    (sub : Subscriber) × (f : Frame) × (subscriber filing camera (early ∷ joined_later ∷ [])
      ≡ built (sub, settled filing 5 opening.1))
    × (receive_raw sub receive_size (pos 0) (record {
      shutdown = false;
      topic = stored.topics 5;
      lock = 0;
      wakes = [];
      pool = sent.pool;
    })
        ≡ done (record sub { last_seq = sent.topic.seq }, some f))
    × (f.payload ≡ 7 ∷ 8 ∷ [])
    × (f.header.type ≡ 4)
unfolding registered create_or_get_topic lock_robust com_ipc.Manager.Segments.open_file
    com_ipc.Manager.Segments.map_file publish_raw deposit enqueue same_text shm_name
first_message_example =
    first_message filing by_number camera new_manager opening.0 empty_disk opening.1 5 (early ∷ [])
      joined_later [] 5 opening.1 quiet (7 ∷ 8 ∷ []) 4 (init (λ a. 0)) sent (pos 0) quiet_disk
      Registry.new_manager-IsValid (omega arith) (omega arith) made ((refl, refl), refl, tt)
      (refl, refl) (Life.next Life.here (Life.joins 0 lidar 42)) refl refl refl (omega arith)
      new_topic-IsValid (omega arith) (omega arith) refl
