-- ===== src/Node.antt =====
-- Nodes: src/node.cpp over the node register, and the `kill` command of tools/com_node.cpp.
pub mod Life
pub mod Names
use com_ipc.Common.{
  ℕ, List, [], ◌∷◌, ◌++◌, Bool, true, false, Option, some, none, Result, ok, throw, Error, ltb,
  if◌then◌else◌,
}
use com_ipc.Posix.{Posix}
use com_ipc.Manager.{SystemManagerShm}
use com_ipc.Manager.Nodes.{register_node, unregister_node, get_node_pid}
use com_ipc.Subscriber.{Subscriber}
use com_ipc.Subscriber.{attach}
use com_ipc.Worker.{Async, no_thread, register_callback}
use com_ipc.Endpoint.{
  publisher, Built, built, unassigned, threw, polling, Turn, poll, find_topic, attach_at, leave,
  close_publisher,
}

-- A subscriber of a node: the address of its segment, if it has one, and its callback and thread,
-- `none` after `std::terminate`. A callback is known by a number.
pub record NodeSubscriber : Type 0 where
  pub segment : Option ℕ
  pub subscriber : Subscriber
  pub async : Option (Async ℕ)

-- A node with the segments of its publishers and its subscribers; an id of -1 is `none`.
pub record Node : Type 0 where
  pub node_id : Option ℕ
  pub name : List ℕ
  pub publishers : List ℕ
  pub subscribers : List NodeSubscriber

abbrev pub new_node : List ℕ → Result (Option ℕ) × SystemManagerShm → Result Node × SystemManagerShm
new_node name (ok id, m) =
    (ok (record { node_id = id; name = name; publishers = []; subscribers = [] }), m)
new_node name (throw e, m) = (throw e, m)

-- `Node::Node` in the process `pid`.
unfoldable pub create :
    (lock : ℕ) → List ℕ → (pid : ℕ) → SystemManagerShm → Result Node × SystemManagerShm
unfolding register_node
create lock name pid m = new_node name (register_node lock name pid m)

-- The body of `Node::~Node`.
unfoldable pub destroy : (lock : ℕ) → Node → SystemManagerShm → Result (Unit {0}) × SystemManagerShm
unfolding unregister_node
destroy lock node m = unregister_node lock node.node_id m

module _ (P : Posix) where
  abbrev pub with_publisher :
      Node → Result ℕ × SystemManagerShm × P.Os → Result ℕ × Node × SystemManagerShm × P.Os
  with_publisher node (ok address, m, os) =
      (ok address, record node { publishers = node.publishers ++ address ∷ [] }, m, os)
  with_publisher node (throw e, m, os) = (throw e, node, m, os)

  -- `createPublisher`
  unfoldable pub create_publisher :
      (lock : ℕ)
      → List ℕ
      → Node
      → SystemManagerShm
      → P.Os
      → Result ℕ × Node × SystemManagerShm × P.Os
  unfolding publisher
  create_publisher lock topic_name node m os =
      with_publisher node (publisher P lock topic_name m os)

  -- The address that the constructor of a subscriber found.
  abbrev pub segment_of : Built (Option ℕ × P.Os) → Option ℕ
  segment_of (built (address, os)) = address
  segment_of unassigned = none
  segment_of (threw e) = none
  segment_of polling = none

  -- `ptr->registerCallback(callback)` on the new subscriber, and `push_back`.
  abbrev pub with_subscriber :
      (callback : ℕ) → Node → (segment : Option ℕ) → Built (Subscriber × P.Os) → Built (Node × P.Os)
  with_subscriber callback node segment (built (sub, os)) =
      let member : NodeSubscriber = record {
        segment = segment;
        subscriber = sub;
        async = register_callback callback (record { callback = none; worker = no_thread });
      } in
      built (record node { subscribers = node.subscribers ++ member ∷ [] }, os)
  with_subscriber callback node segment unassigned = unassigned
  with_subscriber callback node segment (threw e) = threw e
  with_subscriber callback node segment polling = polling

  -- `createSubscriber`: what the thread then calls is `asyncLoop`.
  unfoldable pub create_subscriber :
      List ℕ → (callback : ℕ) → List (Turn P) → Node → Built (Node × P.Os)
  unfolding poll attach register_callback
  create_subscriber topic_name callback turns node =
      let found = poll P (find_topic P topic_name) false turns in
      with_subscriber callback node (segment_of found) (attach_at P found)

  -- The destructors of the subscribers, once each has stopped and joined its thread; a throw out of
  -- one is `std::terminate`.
  unfoldable pub drop_subscribers : List NodeSubscriber → P.Os → Result (Unit {0}) × P.Os
  unfolding leave
  drop_subscribers [] os = (ok tt, os)
  drop_subscribers (s ∷ ss) os =
      let (r, os1) = leave P s.segment os in
      let rest = drop_subscribers ss os1 in elim r [ ok _ ↦ rest | throw e ↦ (throw e, os1) ]

  -- The destructors of the publishers.
  unfoldable pub drop_publishers : List ℕ → P.Os → P.Os
  drop_publishers [] os = os
  drop_publishers (address ∷ rest) os = drop_publishers rest (close_publisher P (some address) os)

  abbrev drop_members : Node → Result (Unit {0}) × P.Os → Result (Unit {0}) × P.Os
  drop_members node (ok _, os) = (ok tt, drop_publishers node.publishers os)
  drop_members node (throw e, os) = (throw e, os)

  -- `Node::~Node` with the destruction of its members, the last one first.
  unfoldable pub delete_node :
      (lock : ℕ) → Node → SystemManagerShm → P.Os → Result (Unit {0}) × SystemManagerShm × P.Os
  delete_node lock node m os =
      let (r, m1) = destroy lock node m in
      let (r1, os1) = drop_members node (drop_subscribers node.subscribers os) in
      elim r [ ok _ ↦ (r1, m1, os1) | throw e ↦ (throw e, m1, os) ]

-- What `com_node kill` does: SIGINT to a process, or a line that says that there is no such node.
pub data Killed : Type 0 where
  signalled : ℕ → Killed
  not_found : Killed
  failed : Error → Killed

abbrev pub signal : Result (Option ℕ) → Killed
signal (ok (some pid)) = if ltb 0 pid then signalled pid else not_found
signal (ok none) = not_found
signal (throw e) = failed e

unfoldable pub kill : (lock : ℕ) → List ℕ → SystemManagerShm → Killed
unfolding get_node_pid
kill lock target m = signal (get_node_pid lock target m)
