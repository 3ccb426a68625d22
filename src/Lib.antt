-- ===== src/Lib.antt =====
-- A model of com_ipc, a ROS-like middleware in C++: topics and services between the processes of one
-- machine over POSIX shared memory, and topics and services between machines over UDP.
--
-- The parts and how they interact. A publisher copies a payload into the memory pool that all
-- processes share, and enqueues a header with the payload's offset in the ring of its topic's
-- segment. A subscriber waits on the segment until the topic's number is above its own cursor, takes
-- the newest header and copies the payload out of the pool. A service's segment holds one request and
-- one response; flags pass them between client and server. The system manager is one more segment:
-- the register of topics, services and nodes, and the code that creates and maps the others' files.
-- An action is three topics, for goals, feedback and results, and a service to cancel goals.
-- The UDP classes put a 14-byte envelope with a number in front of each payload.
--
-- The files, and the code that each models:
--   Types              inc/com_ipc_types.h: limits, message types, segment layouts
--   Common.Errors      SystemManager::lockRobust of src/system_manager.cpp, and the exceptions
--   Common.Bytes       memory as a function from addresses to bytes; little-endian numbers
--   CString            strncpy, strncmp and std::string(const char*) on character fields
--   Pool               src/memory_pool.cpp: allocate, getPointer, getOffset, and the copies
--   Pool.Bounds        the place of one block;  Pool.Survival  a block under later allocations
--   Topic              src/publisher.cpp: publishRaw, publish(string), loanRaw, publishLoaned
--   Topic.Ring         the ring of headers as the newest part of a history
--   Topic.Crash        the locked section of publishRaw write by write, and a publisher that dies in
--                      it; Crash.Recovery and Crash.Newest follow what is left
--   Subscriber         src/subscriber.cpp: receiveRaw, receiveLoaned, receive, asyncLoop
--   Subscriber.Wait    the cursor of a subscriber;  Subscriber.Delivery  publisher to subscriber
--   Subscriber.Ends    the ways in which a receiver ends;  Subscriber.Liveness  when it returns
--   Subscriber.Repeats a subscriber behind a publisher that died
--   Traffic            the processes of one topic as a step relation; Traffic.Calls has its calls one
--                      by one, Traffic.Safety what they come to
--   Worker             registerCallback, startAsync, start and shutdown: a flag and a std::thread;
--                      Worker.Life follows rows of them
--   Deadline           the deadlines of receiveRaw and receiveLoaned
--   Manager            the record of the system manager, lookup, entry and listing of topics
--   Manager.Nodes      registerNode, unregisterNode, listNodes, getNodePid; laws in Nodes.Laws, and
--                      the register as a bag of names and processes in Nodes.Directory
--   Manager.Segments   createOrGetTopic, createOrGetService; laws in Segments.Names and .Registry
--   Manager.Life       all calls of the manager as a step relation; Manager.Growth follows a topic,
--                      Manager.Services a service, through it
--   Posix              the kernel's calls that these make, a parameter
--   Service            inc/service_client.h, src/service_server.cpp; Service.Client,
--                      Service.Exchange and Service.Ends have the theorems; Service.Silence is a
--                      channel that nobody serves, Service.Channel one between a client and a
--                      server as a step relation, with Channel.Sound, .Finds and .Answers
--   Udp                src/udp_node.cpp; Udp.Header is QoSHeader of inc/protocol.h; Udp.Sockets
--                      has the constructors; Udp.Order, Udp.Restart and Udp.Rpc the theorems
--   Action             src/action_client.cpp, inc/action_client.h: the client, and the messages of both
--                      sides; Action.Server is src/action_server.cpp, Action.Map std::map and
--                      std::set; Action.Waiting is waitForResult, with a theorem, and Action.Wire,
--                      Action.Delivery and Action.Laws have the others. Action.Opening has the
--                      constructors, start and shutdown: Opening.Names is about the names of
--                      actions, Opening.Cancelling about the cancel service
--   Bag                tools/com_bag.cpp: do_record and do_play; Bag.Replay has the theorem
--   Router             tools/com_router.cpp: send_all and recv_all; theorems in Router.Transfer
--   Router.Gateway     tools/com_router.cpp: do_export and do_import; theorems in Router.Import,
--                      and in Router.Peers, over Router.Guard, for any peer
--   Router.Sockets     tools/com_router.cpp: opening, connecting and closing the sockets; theorems in
--                      Router.Descriptors
--   Monitor            tools/com_topic.cpp: do_hz and do_bw, and do_echo in Monitor.Dump;
--                      Monitor.Windows has the laws of the two meters
--   Binding            src/pybind_wrapper.cpp; Binding.Publish has the theorem
--   Startup            the constructors and singletons of src/system_manager.cpp and
--                      src/memory_pool.cpp; Startup.Joining lets processes join one after
--                      another, Startup.Race at the same time
--   Endpoint           constructors and destructors of Publisher, Subscriber and both service ends;
--                      Endpoint.Polling and Endpoint.Meeting have theorems, and
--                      Endpoint.Files says which file a segment stands for,
--                      Endpoint.FirstMessage follows a topic from registry to payload,
--                      Endpoint.FirstCall a service from registry to answer
--   Node               src/node.cpp, and kill of tools/com_node.cpp; in Node.Life, and in
--                      Node.Names for long names
--   Checks             runs on concrete inputs, and an instance of each theorem below
-- A C++ function `publishRaw` is the definition `publish_raw` of the file of its class.
--
-- State and environment. A method takes its object's fields and the segment, and returns its result
-- with both after it. An exception is `throw`, a null pointer or -1 is `none`. What the code reads
-- from outside is an argument: the result of a lock, the time, the shutdown flag, and what
-- `recvfrom` gives. Between the sections of a mutex other processes run: what a call finds when it
-- comes back from a condition variable is the environment's choice, one element of a list of
-- wake-ups for each wait. The list is the only fuel of the waiting loops: where it ends, the model
-- says that the call is still blocked, and no theorem takes that for a result. The manager and
-- the constructors work over any kernel; a theorem that needs its promises has them as hypotheses.
--
-- Integers are numbers below 2 ^ w with the wrap-around written out; a signed field holds its bit
-- pattern, and a timeout is an integer. The pool has its 100 MB, the ring its 20 slots.
--
-- Not modelled: initialising mutexes and condition variables; printing, but for the dump of
-- do_echo; freeing the endpoints of an action in its destructors; the deadline of
-- ServiceClient::call, whose time-out may be negative; the interpreter's side of
-- src/pybind_wrapper.cpp; the main functions of the tools and com_multicast_sender; the vendored
-- inc/json.hpp.
pub mod Common
pub mod Types
pub mod Pool
pub mod Deadline
pub mod Topic
pub mod Subscriber
pub mod CString
pub mod Posix
pub mod Manager
pub mod Service
pub mod Udp
pub mod Action
pub mod Bag
pub mod Router
pub mod Monitor
pub mod Binding
pub mod Endpoint
pub mod Startup
pub mod Node
pub mod Worker
pub mod Traffic
pub mod Checks
