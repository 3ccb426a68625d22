-- ===== src/Router/Sockets.antt =====
-- The set-up of the sockets in do_export and do_import of tools/com_router.cpp, and what they close
-- at their end, over the kernel's stream sockets.
use com_ipc.Common.{ℕ, List, [], ◌∷◌, Bool, Option, some, none, if◌then◌else◌}
use com_ipc.Udp.Sockets.{SocketAddress, any_address, to_port}
use com_ipc.Router.Gateway.{Stop, stopped, failed_call, threw, in_call, unspecified}
use com_ipc.Router.Gateway.{Import, invalid_magic, no_topic, importing}

-- What the two functions ask of the kernel and of `inet_pton`. A descriptor of -1 is `none`, and a
-- call that gives a Bool gives true if it did not fail.
pub record Streams : Type 1 where
  pub Os : Type 0
  pub socket : Os → Option ℕ × Os
  -- `SO_REUSEADDR | SO_REUSEPORT`
  pub set_reuse : Option ℕ → Os → Bool × Os
  pub bind : Option ℕ → SocketAddress → Os → Bool × Os
  pub listen : Option ℕ → ℕ → Os → Bool × Os
  pub accept : Option ℕ → Os → Option ℕ × Os
  pub connect : ℕ → SocketAddress → Os → Bool × Os
  pub close : Option ℕ → Os → Os
  -- None if the text is no address.
  pub inet_pton : List ℕ → Option ℕ

-- How `do_export` gets to its loop: no socket, interrupted, still trying, or connected.
pub data Connecting : Type 0 where
  no_socket : Connecting
  interrupted : Connecting
  trying : Connecting
  connected : ℕ → Connecting

-- How `do_import` gets to its handshake.
pub data Listening : Type 0 where
  bind_failed listen_failed accept_failed : Listening
  accepted : (server : Option ℕ) (client : ℕ) → Listening

module _ (N : Streams) where
  open N use {Os, socket, set_reuse, bind, listen, accept, connect, close, inet_pton}

  -- `while (connect(…) < 0 && running)` and the `if (!running) return` behind it, which does not close
  -- the socket. The list is what `running` is after each attempt.
  unfoldable pub connect_loop : ℕ → SocketAddress → List Bool → Os → Connecting × Os
  connect_loop fd address [] os = (trying, os)
  connect_loop fd address (running ∷ rs) os =
      let (joined, os1) = connect fd address os in
      let rest = connect_loop fd address rs os1 in
      if running then (if joined then (connected fd, os1) else rest) else (interrupted, os1)

  -- The address of `ip`: `inet_pton` leaves what was on the stack if it cannot read it.
  abbrev pub address_of : (stack : ℕ) → List ℕ → ℕ
  address_of stack ip = elim (inet_pton ip) [ none ↦ stack | some a ↦ a ]

  unfoldable pub after_socket :
      Option ℕ → (stack : ℕ) → List ℕ → (port : ℕ) → List Bool → Os → Connecting × Os
  after_socket none stack ip port rs os = (no_socket, os)
  after_socket (some fd) stack ip port rs os =
      connect_loop fd (record { ip = address_of stack ip; port = to_port port }) rs os

  -- `do_export` up to the connection.
  unfoldable pub open_export : (stack : ℕ) → List ℕ → (port : ℕ) → List Bool → Os → Connecting × Os
  open_export stack ip port rs os =
      let (sock, os1) = socket os in after_socket sock stack ip port rs os1

  -- What is closed behind the loop of `do_export`: an exception passes it by.
  unfoldable pub close_export : ℕ → Stop → Os → Os
  close_export fd stopped os = close (some fd) os
  close_export fd failed_call os = close (some fd) os
  close_export fd (threw e) os = os
  close_export fd in_call os = os
  close_export fd unspecified os = os

  -- The guard behind `accept`.
  unfoldable pub after_accept : Option ℕ → Option ℕ → Os → Listening × Os
  after_accept server none os = (accept_failed, close server os)
  after_accept server (some client) os = (accepted server client, os)

  unfoldable pub open_listen : Option ℕ → Os → Listening × Os
  open_listen server os =
      let (listens, os1) = listen server 3 os in
      if listens
      then (let (sock, os2) = accept server os1 in after_accept server sock os2)
      else (listen_failed, close server os1)

  -- `do_import` up to the connection. It does not look at what `socket` and `setsockopt` return.
  unfoldable pub open_import : (port : ℕ) → Os → Listening × Os
  open_import port os =
      let (server, os1) = socket os in
      let (_, os2) = set_reuse server os1 in
      let (bound, os3) = bind server (record { ip = any_address; port = to_port port }) os2 in
      if bound then open_listen server os3 else (bind_failed, close server os3)

  -- Both ends of `do_import`.
  abbrev pub close_both : Option ℕ → ℕ → Os → Os
  close_both server client os = close server (close (some client) os)

  unfoldable pub close_stop : Option ℕ → ℕ → Stop → Os → Os
  close_stop server client stopped os = close_both server client os
  close_stop server client failed_call os = close_both server client os
  close_stop server client (threw e) os = os
  close_stop server client in_call os = os
  close_stop server client unspecified os = os

  -- What is closed behind the handshake and the loop.
  unfoldable pub close_import : Option ℕ → ℕ → Import → Os → Os
  close_import server client invalid_magic os = close_both server client os
  close_import server client (no_topic stop) os = close_stop server client stop os
  close_import server client (importing topic (stop, s)) os = close_stop server client stop os

  -- What `do_import` closes after the connection, when its handshake and its loop end as `i` says. The
  -- kernel's state is the one behind them, and behind the constructors that are called in between.
  unfoldable pub end_import : Listening → Import → Os → Os
  end_import bind_failed i os = os
  end_import listen_failed i os = os
  end_import accept_failed i os = os
  end_import (accepted server client) i os = close_import server client i os
