-- ===== src/Service.antt =====
-- Services over shared memory: ServiceClient::call of inc/service_client.h and ServiceServer of
-- src/service_server.cpp on one ServiceShm. As for a subscriber, the segment that a call finds after
-- each wait is the environment's: a list of wake-ups. The request counter is an `int` that does not
-- reach its end.
pub mod Client
pub mod Exchange
pub mod Ends
pub mod Silence
pub mod Channel
use com_ipc.Common.{
  ℕ, zero, suc, ◌+◌, ◌%◌, ◌^◌, List, [], ◌∷◌, Bool, true, false, not, ◌&&◌, ◌||◌, Option, none,
  some, Result, Error, ok, throw, lock_robust, owner_dead, timed_out, if◌then◌else◌, ◌==◌, length,
  take,
}
use com_ipc.Types.{ServiceRequestHeader, ServiceResponseHeader, ServiceShm}

-- One return from `pthread_cond_timedwait`: its code, and the segment and flag found then.
pub record Wake : Type 0 where
  pub ret : ℕ
  pub shm : ServiceShm
  pub shutdown : Bool

-- A waiting loop is passed with the wake-ups that are left, gives up, or is still waiting.
pub data Phase : Type 0 where
  passed : ServiceShm → Bool → List Wake → Phase
  gave_up : ServiceShm → Phase
  waiting : Phase

-- What a client does to the channel when a wait fails.
abbrev pub clear : ServiceShm → ServiceShm
clear s = record s { has_request = false; has_response = false }

-- `while (has_request && !g_shutdown_requested)`
unfoldable pub wait_free : ServiceShm → Bool → List Wake → Phase
wait_free s shutdown [] = if s.has_request && not shutdown then waiting else passed s shutdown []
wait_free s shutdown (w ∷ ws) =
    let rest = wait_free w.shm w.shutdown ws in
    if s.has_request && not shutdown
    then (if w.ret == 0 then rest else gave_up (clear w.shm))
    else passed s shutdown (w ∷ ws)

-- `while (!has_response && !g_shutdown_requested)`
unfoldable pub wait_response : ServiceShm → Bool → List Wake → Phase
wait_response s shutdown [] =
    if not s.has_response && not shutdown then waiting else passed s shutdown []
wait_response s shutdown (w ∷ ws) =
    let rest = wait_response w.shm w.shutdown ws in
    if not s.has_response && not shutdown
    then (if w.ret == 0 then rest else gave_up (clear w.shm))
    else passed s shutdown (w ∷ ws)

-- Write the request and raise its flag.
abbrev pub post : (pid id : ℕ) → List ℕ → ServiceShm → ServiceShm
post pid id bytes s = record s {
  request = record { client_pid = pid; request_id = id; data_size = length bytes; bytes = bytes };
  has_request = true;
  has_response = false;
}

-- `ServiceClient`
pub record ServiceClient : Type 0 where
  pub mapped : Bool
  pub next_req_id : ℕ

-- A call returns true with a response, returns false, throws, or is still waiting; it leaves the
-- segment behind.
pub data CallEnd : Type 0 where
  replied : List ℕ → ServiceShm → CallEnd
  refused : ServiceShm → CallEnd
  threw : Error → CallEnd
  blocked : CallEnd

-- The part of `call` behind the second loop: a response of this request and of `size` bytes.
unfoldable pub finish : (id size : ℕ) → Phase → CallEnd
finish id size (passed s shutdown ws) =
    if shutdown || (not (s.response.request_id == id) || not (s.response.data_size == size))
    then refused s
    else replied (take size s.response.bytes) (record s { has_response = false })
finish id size (gave_up s) = refused s
finish id size waiting = blocked

-- The part of `call` behind the first loop.
unfoldable pub request_reply :
    (pid : ℕ) → List ℕ → (size : ℕ) → ServiceClient → Phase → ServiceClient × CallEnd
unfolding wait_response finish
request_reply pid bytes size c (passed s true ws) = (c, refused s)
request_reply pid bytes size c (passed s false ws) =
    let id = c.next_req_id + 1 in
    (record c { next_req_id = id }, finish id size (wait_response (post pid id bytes s) false ws))
request_reply pid bytes size c (gave_up s) = (c, refused s)
request_reply pid bytes size c waiting = (c, blocked)

-- `call` of the process `pid` with the bytes of the request, for a response of `size` bytes.
unfoldable pub call :
    (pid : ℕ)
    → List ℕ
    → (size : ℕ) → ServiceClient
    → (lock : ℕ) → (shutdown : Bool) → ServiceShm
    → List Wake
    → ServiceClient × CallEnd
unfolding request_reply wait_free
call pid bytes size c lock shutdown s ws =
    if not c.mapped || shutdown then (c, refused s) else elim (lock_robust lock) [
      | throw e ↦ (c, threw e)
      | ok _ ↦ request_reply pid bytes size c (wait_free s shutdown ws)
    ]

-- A `ServiceCallback`: the request's bytes and size to the response's bytes, or `none` for false.
abbrev pub ServiceCallback : Type 0
ServiceCallback = List ℕ → ℕ → Option (List ℕ)

abbrev pub is_pending : ServiceShm → Bool
is_pending s = s.has_request && not s.has_response

-- The server's second section: the outcome of the callback for a request that it copied before.
unfoldable pub respond : ServiceRequestHeader → Option (List ℕ) → ServiceShm → ServiceShm
respond req none s = record s { has_request = false }
respond req (some bytes) s = record s {
  response = record {
    request_id = req.request_id;
    data_size = length bytes % 2 ^ 32;
    bytes = bytes;
  };
  has_response = true;
  has_request = false;
}

-- The two sections of `spinOnce` and `serviceLoop` with the callback between them, without the lock:
-- `before` is the segment at the first section, `after` the segment at the second.
unfoldable pub serve : ServiceCallback → (before after : ServiceShm) → ServiceShm
unfolding respond
serve cb before after =
    if is_pending before
    then (let req = before.request in respond req (cb req.bytes req.data_size) after)
    else before

-- `spinOnce`, over what its two locks return.
unfoldable pub spin_once :
    ServiceCallback
    → (mapped shutdown : Bool) → (lock lock' : ℕ) → (before after : ServiceShm) → Result ServiceShm
unfolding serve
spin_once cb mapped shutdown lock lock' before after =
    if not mapped || shutdown then ok before else elim (lock_robust lock) [
      | throw e ↦ throw e
      | ok _ ↦
          (if is_pending before
            then elim (lock_robust lock') [ throw e ↦ throw e | ok _ ↦ ok (serve cb before after) ]
            else ok before)
    ]

-- What the inner loop of `serviceLoop` finds: `running_` is read with the flag of shutdown.
unfoldable pub wait_request : ServiceShm → Bool → List Wake → Phase
wait_request s stopping [] =
    if not s.has_request && not stopping then waiting else passed s stopping []
wait_request s stopping (w ∷ ws) =
    let recovered = wait_request (clear w.shm) w.shutdown ws in
    let rest = wait_request w.shm w.shutdown ws in
    if not s.has_request && not stopping
    then (if w.ret == owner_dead
        then recovered
        else if not (w.ret == 0) && not (w.ret == timed_out)
        then passed w.shm w.shutdown ws
        else rest)
    else passed s stopping (w ∷ ws)

-- How a round of `serviceLoop` ends.
pub data RoundEnd : Type 0 where
  served : ServiceShm → RoundEnd
  stopped : ServiceShm → RoundEnd
  threw : Error → RoundEnd
  blocked : RoundEnd

abbrev pub serve_found : ServiceCallback → ServiceShm → Result Bool → ServiceShm → RoundEnd
serve_found cb after (ok _) s = served (serve cb s after)
serve_found cb after (throw e) s = if is_pending s then RoundEnd.threw e else served s

-- One round of `serviceLoop`: wait for a request, and serve it.
unfoldable pub service_round :
    ServiceCallback
    → (lock lock' : ℕ) → (stopping : Bool) → ServiceShm
    → List Wake
    → (after : ServiceShm) → RoundEnd
unfolding wait_request serve
service_round cb lock lock' stopping s ws after = elim (lock_robust lock) [
  | throw e ↦ RoundEnd.threw e
  | ok _ ↦ (elim (wait_request s stopping ws) [
    | waiting ↦ RoundEnd.blocked
    | gave_up t ↦ stopped t
    | passed t true _ ↦ stopped t
    | passed t false _ ↦ serve_found cb after (lock_robust lock') t
  ])
]
