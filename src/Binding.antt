-- ===== src/Binding.antt =====
-- The Python module of src/pybind_wrapper.cpp. Its functions are the library's, with Python's values
-- turned into C++ ones; how they hold the interpreter's lock does not show in their results.
pub mod Publish
use com_ipc.Common.{ℕ, List, [], Bool, true, false, Option, some, none, Result, ok, throw, take}
use com_ipc.Types.{msg_custom}
use com_ipc.Pool.{write}
use com_ipc.Topic.{Call, Shm, loan_raw, publish_loaned}
use com_ipc.Subscriber.{LoanedMessage}
use com_ipc.Pool.{Pool, read}
use com_ipc.Udp
use com_ipc.Udp.{UdpPublisher, UdpSubscriber, UdpServiceClient, Answer}

-- `py::buffer_info`: `size` counts the elements, each of `itemsize` bytes.
pub record BufferInfo : Type 0 where
  pub bytes : List ℕ
  pub itemsize : ℕ
  pub size : ℕ

-- A call whose result is not used.
abbrev pub discard : Result Bool × Shm → Result (Unit {0}) × Shm
discard (ok _, s) = (ok tt, s)
discard (throw e, s) = (throw e, s)

-- `publish` behind `loanRaw`, whose pointer is never null: copy `size` bytes and publish.
abbrev pub fill : Call → BufferInfo → Result ℕ × Shm → Result (Unit {0}) × Shm
fill c info (throw e, s) = (throw e, s)
fill c info (ok ptr, s) = discard (
    publish_loaned c ptr info.size msg_custom
      (record s { pool = write ptr (take info.size info.bytes) s.pool }))

-- `Publisher.publish`
unfoldable pub publish : Call → BufferInfo → Shm → Result (Unit {0}) × Shm
unfolding loan_raw publish_loaned
publish c info s = fill c info (loan_raw c info.size s)

-- What the callback of `Node.create_subscriber` is given: a view of the message in the pool.
abbrev pub view : Pool → LoanedMessage → List ℕ
view pool msg = read msg.pointer msg.size pool

-- `UDPPublisher.publish` of a `bytes` object.
unfoldable pub udp_publish :
    UdpPublisher → List ℕ → (now : ℕ) → (sent : Option ℕ) → UdpPublisher × Option (List ℕ) × Bool
unfolding Udp.publish
udp_publish self bytes now sent = Udp.publish self (some bytes) now sent

-- A `std::string` as a `bytes` object: nothing is an empty one.
abbrev pub as_bytes : Option (List ℕ) → List ℕ
as_bytes none = []
as_bytes (some bs) = bs

-- `UDPSubscriber.receive`
unfoldable pub udp_receive : UdpSubscriber → Option (List ℕ) → UdpSubscriber × List ℕ
unfolding Udp.receive
udp_receive self d = let (self', r) = Udp.receive self d in (self', as_bytes r)

-- `UDPServiceClient.call`
unfoldable pub udp_call :
    UdpServiceClient
    → List ℕ
    → (now : ℕ) → List (Option (List ℕ))
    → UdpServiceClient × Option (List ℕ) × Answer
unfolding Udp.call
udp_call self bytes now ds = Udp.call self (some bytes) now ds

-- `UDPServiceServer.receive_request`: the tuple of the request and its client, or `None`.
unfoldable pub udp_receive_request : Option (List ℕ) → Option (List ℕ × ℕ)
unfolding Udp.receive_request
udp_receive_request d = elim (Udp.receive_request d) [
  | some (bytes, client_info) ↦ some (bytes, client_info)
  | none ↦ none
]

-- `UDPServiceServer.send_response`
unfoldable pub udp_send_response :
    Bool → List ℕ → (id now : ℕ) → (sent : Option ℕ) → Option (List ℕ) × Bool
unfolding Udp.send_response
udp_send_response has_socket bytes id now sent =
    Udp.send_response has_socket (some bytes) id now sent
