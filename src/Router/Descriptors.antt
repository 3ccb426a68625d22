-- ===== src/Router/Descriptors.antt =====
-- Which descriptors do_export and do_import of tools/com_router.cpp leave open.
use com_ipc.Common.{
  ℕ, ◌++◌, List, [], ◌∷◌, Bool, true, false, Option, some, none, if◌then◌else◌, ◌==◌, refl, ◌∙◌, ap,
  ◌≡◌, Bool-cases, arith, inl, inr,
}
use com_ipc.Router.Gateway.{Stop, stopped, failed_call, threw, in_call, unspecified}
use com_ipc.Topic.{Shm}
use com_ipc.Router.{Round}
use com_ipc.Router.Gateway.{Import, invalid_magic, no_topic, importing, ImportRound, do_import}
use com_ipc.Udp.Sockets.{SocketAddress, any_address, to_port}
use com_ipc.Router.Sockets.{
  close_both, Streams, Listening, bind_failed, listen_failed, accept_failed, accepted, connect_loop,
  open_export, after_socket, after_accept, open_listen, open_import, close_stop, close_import,
  end_import,
}

-- The table of open descriptors without `fd`.
abbrev pub closed : ℕ → List ℕ → List ℕ
closed fd [] = []
closed fd (x ∷ xs) = let rest = closed fd xs in if x == fd then xs else x ∷ rest

abbrev pub added : Option ℕ → List ℕ → List ℕ
added none fds = fds
added (some fd) fds = fd ∷ fds

-- The open descriptors of the process: a call that makes one adds it, `close` removes one, and the
-- other calls leave them alone.
pub record Table (N : Streams) : Type 0 where
  pub open_fds : N.Os → List ℕ
  pub of_socket : (os : N.Os) → open_fds ((N.socket os).1) ≡ added ((N.socket os).0) (open_fds os)
  pub of_accept :
      (s : Option ℕ) (os : N.Os)
      → open_fds ((N.accept s os).1) ≡ added ((N.accept s os).0) (open_fds os)
  pub of_reuse : (s : Option ℕ) (os : N.Os) → open_fds ((N.set_reuse s os).1) ≡ open_fds os
  pub of_bind :
      (s : Option ℕ) (a : SocketAddress) (os : N.Os) → open_fds ((N.bind s a os).1) ≡ open_fds os
  pub of_listen : (s : Option ℕ) (n : ℕ) (os : N.Os) → open_fds ((N.listen s n os).1) ≡ open_fds os
  pub of_connect :
      (s : ℕ) (a : SocketAddress) (os : N.Os) → open_fds ((N.connect s a os).1) ≡ open_fds os
  pub close_some : (fd : ℕ) (os : N.Os) → open_fds (N.close (some fd) os) ≡ closed fd (open_fds os)
  pub close_none : (os : N.Os) → open_fds (N.close none os) ≡ open_fds os

closed_first : (fd : ℕ) (fds : List ℕ) → closed fd (fd ∷ fds) ≡ fds
closed_first fd fds = ground arith

-- True where `do_import` comes to its end.
abbrev pub returns : Stop → Bool
returns stopped = true
returns failed_call = true
returns (threw e) = false
returns in_call = false
returns unspecified = false

abbrev pub ends : Import → Bool
ends invalid_magic = true
ends (no_topic stop) = returns stop
ends (importing topic (stop, shm)) = returns stop

-- The descriptors of a `do_import` are none of `kept`, which other parts of the process opened.
abbrev pub AreOther : List ℕ → Option ℕ → Type 0
AreOther kept none = Unit {0}
AreOther [] (some fd) = Unit {0}
AreOther (k ∷ kept) (some fd) = ((k == fd) ≡ false) × AreOther kept (some fd)

abbrev pub AreOthers : List ℕ → Listening → Type 0
AreOthers kept bind_failed = Unit {0}
AreOthers kept listen_failed = Unit {0}
AreOthers kept accept_failed = Unit {0}
AreOthers kept (accepted server client) = AreOther kept server × AreOther kept (some client)

closed-append :
    (fd : ℕ) (kept fds : List ℕ)
    → AreOther kept (some fd)
    → closed fd (kept ++ fd ∷ fds) ≡ kept ++ fds
closed-append fd [] fds v = closed_first fd fds
closed-append fd (k ∷ kept) fds v = rw v.0 (ap (λ r. k ∷ r) (closed-append fd kept fds v.1))

-- The descriptors that an open or a refused `do_import` holds.
abbrev pub held : Listening → List ℕ → List ℕ
held bind_failed fds = fds
held listen_failed fds = fds
held accept_failed fds = fds
held (accepted s client) fds = client ∷ added s fds

module _ (N : Streams) (T : Table N) where
  open N use {Os, socket, set_reuse, bind, listen, accept, connect, close, inet_pton}
  open T use {open_fds}

  -- Closing the descriptor that was opened last gives back the others.
  pub close-added :
      (s : Option ℕ) (fds : List ℕ) (os : Os)
      → open_fds os ≡ added s fds
      → open_fds (close s os) ≡ fds
  close-added none fds os e = T.close_none os ∙ e
  close-added (some fd) fds os e = T.close_some fd os ∙ ap (closed fd) e ∙ closed_first fd fds

  -- Connecting opens and closes nothing, also where it is interrupted.
  pub connect_loop-open_fds :
      (fd : ℕ) (a : SocketAddress) (rs : List Bool) (os : Os)
      → open_fds ((connect_loop N fd a rs os).1) ≡ open_fds os
  unfolding connect_loop
  connect_loop-open_fds fd a [] os = refl
  connect_loop-open_fds fd a (false ∷ rs) os = T.of_connect fd a os
  connect_loop-open_fds fd a (true ∷ rs) os = elim (Bool-cases ((connect fd a os).0)) [
    | inl did ↦ rw did (T.of_connect fd a os)
    | inr failed ↦
        rw failed (connect_loop-open_fds fd a rs ((connect fd a os).1) ∙ T.of_connect fd a os)
  ]

  pub after_socket-open_fds :
      (sock : Option ℕ) (stack : ℕ) (ip : List ℕ) (port : ℕ) (rs : List Bool) (os : Os)
      → open_fds ((after_socket N sock stack ip port rs os).1) ≡ open_fds os
  unfolding after_socket
  after_socket-open_fds none stack ip port rs os = refl
  after_socket-open_fds (some fd) stack ip port rs os = connect_loop-open_fds fd _ rs os

  -- However `do_export` gets out of connecting, the descriptor that `socket` gave it is still open,
  -- also where it returns because it was interrupted.
  pub open_export-open_fds :
      (stack : ℕ) (ip : List ℕ) (port : ℕ) (rs : List Bool) (os : Os)
      → open_fds ((open_export N stack ip port rs os).1) ≡ added ((socket os).0) (open_fds os)
  unfolding open_export
  open_export-open_fds stack ip port rs os =
      after_socket-open_fds ((socket os).0) stack ip port rs ((socket os).1) ∙ T.of_socket os

  after_accept-held :
      (s sock : Option ℕ) (fds : List ℕ) (os : Os)
      → open_fds os ≡ added sock (added s fds)
      → open_fds ((after_accept N s sock os).1) ≡ held ((after_accept N s sock os).0) fds
  unfolding after_accept
  after_accept-held s none fds os e = close-added s fds os e
  after_accept-held s (some client) fds os e = e

  open_listen-held :
      (s : Option ℕ) (fds : List ℕ) (os : Os)
      → open_fds os ≡ added s fds
      → open_fds ((open_listen N s os).1) ≡ held ((open_listen N s os).0) fds
  unfolding open_listen
  open_listen-held s fds os e =
      let listened = T.of_listen s 3 os ∙ e in
      elim (Bool-cases ((listen s 3 os).0)) [
        | inl did ↦ rw did (after_accept-held s _ fds _ (T.of_accept s _ ∙ ap (added _) listened))
        | inr failed ↦ rw failed (close-added s fds _ listened)
      ]

  -- `do_import` up to the connection: where bind, listen or accept fails, the socket is closed again,
  -- and behind `accept` that socket and the client's are open.
  pub open_import-held :
      (port : ℕ) (os : Os)
      → open_fds ((open_import N port os).1) ≡ held ((open_import N port os).0) (open_fds os)
  unfolding open_import
  open_import-held port os =
      let s = (socket os).0 in
      let made = T.of_reuse s ((socket os).1) ∙ T.of_socket os in
      let a : SocketAddress = record { ip = any_address; port = to_port port } in
      let named = T.of_bind s a ((set_reuse s ((socket os).1)).1) ∙ made in
      elim (Bool-cases ((bind s a ((set_reuse s ((socket os).1)).1)).0)) [
        | inl did ↦ rw did (open_listen-held s (open_fds os) _ named)
        | inr failed ↦ rw failed (close-added s (open_fds os) _ named)
      ]

  close-append :
      (s : Option ℕ) (kept fds : List ℕ) (os : Os)
      → AreOther kept s
      → open_fds os ≡ kept ++ added s fds
      → open_fds (close s os) ≡ kept ++ fds
  close-append none kept fds os v e = T.close_none os ∙ e
  close-append (some fd) kept fds os v e =
      T.close_some fd os ∙ ap (closed fd) e ∙ closed-append fd kept fds v

  close_both-open_fds :
      (s : Option ℕ) (client : ℕ) (kept fds : List ℕ) (os : Os)
      → AreOther kept s × AreOther kept (some client)
      → open_fds os ≡ kept ++ client ∷ added s fds
      → open_fds (close_both N s client os) ≡ kept ++ fds
  close_both-open_fds s client kept fds os v e =
      close-append s kept fds (close (some client) os) v.0
        (close-append (some client) kept (added s fds) os v.1 e)

  -- Behind the loop both are closed, unless an exception leaves `do_import`.
  close_stop-open_fds :
      (s : Option ℕ) (client : ℕ) (stop : Stop) (kept fds : List ℕ) (os : Os)
      → AreOther kept s × AreOther kept (some client)
      → open_fds os ≡ kept ++ client ∷ added s fds
      → returns stop ≡ true
      → open_fds (close_stop N s client stop os) ≡ kept ++ fds
  unfolding close_stop
  close_stop-open_fds s client stopped kept fds os v e r =
      close_both-open_fds s client kept fds os v e
  close_stop-open_fds s client failed_call kept fds os v e r =
      close_both-open_fds s client kept fds os v e
  close_stop-open_fds s client (threw x) kept fds os v e r = absurd (ground arith)
  close_stop-open_fds s client in_call kept fds os v e r = absurd (ground arith)
  close_stop-open_fds s client unspecified kept fds os v e r = absurd (ground arith)

  end_import-open_fds :
      (l : Listening) (i : Import) (kept fds : List ℕ) (os : Os)
      → AreOthers kept l
      → open_fds os ≡ kept ++ held l fds
      → ends i ≡ true
      → open_fds (end_import N l i os) ≡ kept ++ fds
  unfolding end_import close_import
  end_import-open_fds bind_failed i kept fds os v e r = e
  end_import-open_fds listen_failed i kept fds os v e r = e
  end_import-open_fds accept_failed i kept fds os v e r = e
  end_import-open_fds (accepted s client) invalid_magic kept fds os v e r =
      close_both-open_fds s client kept fds os v e
  end_import-open_fds (accepted s client) (no_topic stop) kept fds os v e r =
      close_stop-open_fds s client stop kept fds os v e r
  end_import-open_fds (accepted s client) (importing topic (stop, shm)) kept fds os v e r =
      close_stop-open_fds s client stop kept fds os v e r

  -- The sockets of `do_import`, on a kernel whose calls open and close descriptors as documented. Behind
  -- the set-up of the sockets other parts of the process may open descriptors and keep them, as the
  -- constructors of SystemManager and MemoryPool do; the kernel gives them other numbers than those of
  -- the two sockets. Then, whether bind, listen or accept fails, the peer is refused, a call on the
  -- stream fails or the loop is stopped, in the end only these are open beside those that were open
  -- before. The last condition leaves out that an exception passes the end by, that a call is still
  -- waiting, and that a size is used which was never received.
  pub do_import-open_fds :
      (port : ℕ) (os os' : Os) (kept : List ℕ) (rs : List ImportRound) (rounds : List Round)
      (inbox : List ℕ) (shm : Shm)
      → AreOthers kept (open_import N port os).0
      → open_fds os' ≡ kept ++ open_fds ((open_import N port os).1)
      → ends (do_import rs rounds inbox shm) ≡ true
      → open_fds (end_import N (open_import N port os).0 (do_import rs rounds inbox shm) os')
        ≡ kept ++ open_fds os
  do_import-open_fds port os os' kept rs rounds inbox shm v e r =
      end_import-open_fds (open_import N port os).0 (do_import rs rounds inbox shm) kept
        (open_fds os) os' v (e ∙ ap (λ fds. kept ++ fds) (open_import-held port os)) r
