-- ===== src/Udp/Sockets.antt =====
-- The constructors and destructors of src/udp_node.cpp, and the time-out that a call sets, over the
-- kernel's sockets.
use com_ipc.Common.{
  ℕ, zero, suc, ◌+◌, ◌*◌, ◌/◌, ◌%◌, ◌^◌, List, Bool, true, false, Option, none, some,
}
use com_ipc.Common.Int.{ℤ, pos, negsuc}
use com_ipc.Udp.{UdpPublisher, UdpSubscriber, UdpServiceClient}

-- The options that `setsockopt` is given: SO_REUSEADDR, SO_REUSEPORT, IP_ADD_MEMBERSHIP for a group,
-- and SO_RCVTIMEO in seconds and microseconds.
pub data SocketOption : Type 0 where
  reuse_addr reuse_port : SocketOption
  add_membership : ℕ → SocketOption
  receive_timeout : ℤ → ℤ → SocketOption

-- `sockaddr_in`
pub record SocketAddress : Type 0 where
  pub ip : ℕ
  pub port : ℕ

-- What the classes ask of the kernel and of `inet_addr`. A socket of -1 is `none`.
pub record Sockets : Type 1 where
  pub Os : Type 0
  pub socket : Os → Option ℕ × Os
  -- True if it did not return -1.
  pub setsockopt : Option ℕ → SocketOption → Os → Bool × Os
  pub bind : Option ℕ → SocketAddress → Os → Bool × Os
  pub close : ℕ → Os → Os
  pub inet_addr : List ℕ → ℕ

-- INADDR_ANY
abbrev pub any_address : ℕ
any_address = 0

abbrev pub is_open : Option ℕ → Bool
is_open none = false
is_open (some fd) = true

-- `htons` of an `int`, which is cut to 16 bits.
abbrev pub to_port : ℕ → ℕ
to_port port = port % 2 ^ 16

-- A socket with its address and the numbers of the class.
pub record Bound {ℓ} (A : Type ℓ) : Type ℓ where
  pub sock : Option ℕ
  pub address : SocketAddress
  pub numbers : A

abbrev neg : ℕ → ℤ
neg zero = pos zero
neg (suc n) = negsuc n

-- The two fields of `timeval` that `call` computes from its time-out.
abbrev pub timeval : ℤ → ℤ × ℤ
timeval (pos ms) = (pos (ms / 1000), pos (ms % 1000 * 1000))
timeval (negsuc n) = (neg ((n + 1) / 1000), neg ((n + 1) % 1000 * 1000))

module _ (N : Sockets) where
  open N use {Os, socket, setsockopt, bind, close, inet_addr}

  -- `UDPPublisher::UDPPublisher` and `UDPServiceClient::UDPServiceClient`
  unfoldable pub udp_publisher : List ℕ → (port : ℕ) → Os → Bound UdpPublisher × Os
  udp_publisher dest_ip port os =
      let (sock, os1) = socket os in
      (
        record {
          sock = sock;
          address = record { ip = inet_addr dest_ip; port = to_port port };
          numbers = record { has_socket = is_open sock; current_seq = 0 };
        },
        os1,
      )

  unfoldable pub udp_service_client : List ℕ → (port : ℕ) → Os → Bound UdpServiceClient × Os
  udp_service_client server_ip port os =
      let (sock, os1) = socket os in
      (
        record {
          sock = sock;
          address = record { ip = inet_addr server_ip; port = to_port port };
          numbers = record { has_socket = is_open sock; current_request_id = 0 };
        },
        os1,
      )

  -- `UDPSubscriber::UDPSubscriber`: what fails is printed at most.
  unfoldable pub udp_subscriber : List ℕ → (port : ℕ) → Os → Bound UdpSubscriber × Os
  udp_subscriber bind_ip port os =
      let (sock, os1) = socket os in
      let local : SocketAddress = record { ip = any_address; port = to_port port } in
      let (_, os2) = setsockopt sock reuse_addr os1 in
      let (_, os3) = setsockopt sock reuse_port os2 in
      let (_, os4) = bind sock local os3 in
      let (_, os5) = setsockopt sock (add_membership (inet_addr bind_ip)) os4 in
      (
        record {
          sock = sock;
          address = local;
          numbers = record { has_socket = is_open sock; last_valid_seq = 0 };
        },
        os5,
      )

  -- `UDPServiceServer::UDPServiceServer`, which does not look at `bind_ip`.
  unfoldable pub udp_service_server : List ℕ → (port : ℕ) → Os → Bound Bool × Os
  udp_service_server bind_ip port os =
      let (sock, os1) = socket os in
      let local : SocketAddress = record { ip = any_address; port = to_port port } in
      let (_, os2) = setsockopt sock reuse_addr os1 in
      let (_, os3) = bind sock local os2 in
      (record { sock = sock; address = local; numbers = is_open sock }, os3)

  -- The four destructors.
  abbrev pub close_socket : Option ℕ → Os → Os
  close_socket none os = os
  close_socket (some fd) os = close fd os

  -- The time-out that `call` sets before it waits.
  abbrev pub set_timeout : Option ℕ → ℤ → Os → Bool × Os
  set_timeout sock timeout_ms os =
      let (sec, usec) = timeval timeout_ms in setsockopt sock (receive_timeout sec usec) os
