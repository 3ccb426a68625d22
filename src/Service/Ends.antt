-- ===== src/Service/Ends.antt =====
-- How ServiceClient::call of inc/service_client.h ends.
use com_ipc.Common.{
  ℕ, ◌+◌, ◌≡◌, ◌≢◌, ◌⊎◌, inl, inr, List, [], ◌∷◌, Bool, true, false, not, ◌&&◌, ◌==◌, Bool-cases,
  arith,
}
use com_ipc.Types.{ServiceShm}
use com_ipc.Service.{
  Wake, Phase, passed, gave_up, waiting, wait_free, wait_response, post, finish, request_reply,
  ServiceClient, CallEnd, call,
}

-- Some wait fails: its deadline is over, or the mutex's owner has died.
abbrev pub Fails : List Wake → Type 0
Fails [] = ⊥
Fails (w ∷ ws) = (w.ret ≢ 0) ⊎ Fails ws

Fails-tail : (w : Wake) (ws : List Wake) → Fails (w ∷ ws) → (w.ret == 0) ≡ true → Fails ws
Fails-tail w ws (inl n) z = absurd (n (ground arith))
Fails-tail w ws (inr g) z = g

-- A loop is not left waiting, and where it is passed the failure is still to come.
abbrev EndsOrPasses : Phase → Type 0
EndsOrPasses (passed s shutdown ws) = Fails ws
EndsOrPasses (gave_up s) = Unit {0}
EndsOrPasses waiting = ⊥

wait_free-Fails :
    (s : ServiceShm) (shutdown : Bool) (ws : List Wake)
    → Fails ws
    → EndsOrPasses (wait_free s shutdown ws)
unfolding wait_free
wait_free-Fails s shutdown [] f = absurd f
wait_free-Fails s shutdown (w ∷ ws) f = elim (Bool-cases (s.has_request && not shutdown)) [
  | inr e ↦ rw e f
  | inl e ↦ elim (Bool-cases (w.ret == 0)) [
    | inr z ↦ rw (e, z) tt
    | inl z ↦ rw (e, z) (wait_free-Fails w.shm w.shutdown ws (Fails-tail w ws f z))
  ]
]

wait_response-Fails :
    (s : ServiceShm) (shutdown : Bool) (ws : List Wake)
    → Fails ws
    → EndsOrPasses (wait_response s shutdown ws)
unfolding wait_response
wait_response-Fails s shutdown [] f = absurd f
wait_response-Fails s shutdown (w ∷ ws) f = elim (Bool-cases (not s.has_response && not shutdown)) [
  | inr e ↦ rw e f
  | inl e ↦ elim (Bool-cases (w.ret == 0)) [
    | inr z ↦ rw (e, z) tt
    | inl z ↦ rw (e, z) (wait_response-Fails w.shm w.shutdown ws (Fails-tail w ws f z))
  ]
]

finish_ends : (id size : ℕ) (p : Phase) → EndsOrPasses p → finish id size p ≢ CallEnd.blocked
unfolding finish
finish_ends id size (passed s shutdown ws) f = ground arith
finish_ends id size (gave_up s) f = cc
finish_ends id size waiting f = absurd f

request_reply_ends :
    (pid : ℕ) (bytes : List ℕ) (size : ℕ) (c : ServiceClient) (p : Phase)
    → EndsOrPasses p
    → (request_reply pid bytes size c p).1 ≢ CallEnd.blocked
unfolding request_reply
request_reply_ends pid bytes size c (passed s true ws) f = cc
request_reply_ends pid bytes size c (passed s false ws) f =
    finish_ends (c.next_req_id + 1) size _
      (wait_response-Fails (post pid (c.next_req_id + 1) bytes s) false ws f)
request_reply_ends pid bytes size c (gave_up s) f = cc
request_reply_ends pid bytes size c waiting f = absurd f

-- A call comes back as soon as one of its waits fails, in whichever of its two loops that is and
-- whatever server and other clients do to the channel: it never waits through a time-out.
pub call_ends :
    (pid : ℕ) (bytes : List ℕ) (size : ℕ) (c : ServiceClient) (lock : ℕ) (shutdown : Bool)
    → (s : ServiceShm) (ws : List Wake) → Fails ws
    → (call pid bytes size c lock shutdown s ws).1 ≢ CallEnd.blocked
unfolding call
call_ends pid bytes size c lock shutdown s ws f = ground (
  arith,
  request_reply_ends pid bytes size c (wait_free s shutdown ws) (wait_free-Fails s shutdown ws f),
)
