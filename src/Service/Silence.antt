-- ===== src/Service/Silence.antt =====
-- ServiceClient::call of inc/service_client.h on a channel that nobody serves.
use com_ipc.Common.{
  ℕ, ◌+◌, ◌≡◌, refl, List, [], ◌∷◌, Bool, true, false, not, ◌&&◌, inl, inr, Bool-cases, ◌==◌, arith,
}
use com_ipc.Types.{ServiceShm}
use com_ipc.Service.{
  Wake, Phase, passed, gave_up, waiting, wait_free, wait_response, post, finish, request_reply,
  ServiceClient, CallEnd, call, replied, refused, threw, blocked,
}

-- Did the call return true?
abbrev pub has_reply : CallEnd → Bool
has_reply (replied bytes s) = true
has_reply (refused s) = false
has_reply (threw e) = false
has_reply blocked = false

-- No wake-up finds a response.
abbrev pub NoResponse : List Wake → Type 0
NoResponse [] = Unit {0}
NoResponse (w ∷ ws) = (w.shm.has_response ≡ false) × NoResponse ws

abbrev PassedAtShutdown : Phase → Type 0
PassedAtShutdown (passed s shutdown ws) = shutdown ≡ true
PassedAtShutdown (gave_up s) = Unit {0}
PassedAtShutdown waiting = Unit {0}

wait_response_mute :
    (s : ServiceShm) (shutdown : Bool) (ws : List Wake)
    → s.has_response ≡ false
    → NoResponse ws
    → PassedAtShutdown (wait_response s shutdown ws)
unfolding wait_response
wait_response_mute s shutdown [] h v = elim (Bool-cases shutdown) [
  | inl e ↦ rw (h, e) refl
  | inr e ↦ rw (h, e) tt
]
wait_response_mute s shutdown (w ∷ ws) h v = elim (Bool-cases shutdown) [
  | inl e ↦ rw (h, e) refl
  | inr e ↦ elim (Bool-cases (w.ret == 0)) [
    | inl z ↦ rw (h, e, z) (wait_response_mute w.shm w.shutdown ws v.0 v.1)
    | inr z ↦ rw (h, e, z) tt
  ]
]

finish_mute : (id size : ℕ) (p : Phase) → PassedAtShutdown p → has_reply (finish id size p) ≡ false
unfolding finish
finish_mute id size (passed s shutdown ws) v = rw v refl
finish_mute id size (gave_up s) v = refl
finish_mute id size waiting v = refl

-- The wake-ups that are left behind the first loop are of those that there were.
abbrev Rest : Phase → Type 0
Rest (passed s shutdown ws) = NoResponse ws
Rest (gave_up s) = Unit {0}
Rest waiting = Unit {0}

wait_free-Rest :
    (s : ServiceShm) (shutdown : Bool) (ws : List Wake)
    → NoResponse ws
    → Rest (wait_free s shutdown ws)
unfolding wait_free
wait_free-Rest s shutdown [] v = elim (Bool-cases (s.has_request && not shutdown)) [
  | inl e ↦ rw e tt
  | inr e ↦ rw e tt
]
wait_free-Rest s shutdown (w ∷ ws) v = elim (Bool-cases (s.has_request && not shutdown)) [
  | inr e ↦ rw e v
  | inl e ↦ elim (Bool-cases (w.ret == 0)) [
    | inl z ↦ rw (e, z) (wait_free-Rest w.shm w.shutdown ws v.1)
    | inr z ↦ rw (e, z) tt
  ]
]

request_reply_mute :
    (pid : ℕ) (bytes : List ℕ) (size : ℕ) (c : ServiceClient) (p : Phase)
    → Rest p
    → has_reply (request_reply pid bytes size c p).1 ≡ false
unfolding request_reply
request_reply_mute pid bytes size c (passed s true ws) v = refl
request_reply_mute pid bytes size c (passed s false ws) v =
    let id = c.next_req_id + 1 in
    finish_mute id size _ (wait_response_mute (post pid id bytes s) false ws refl v)
request_reply_mute pid bytes size c (gave_up s) v = refl
request_reply_mute pid bytes size c waiting v = refl

-- A call whose wake-ups find no response does not return true.
pub call_mute :
    (pid : ℕ) (bytes : List ℕ) (size : ℕ) (c : ServiceClient) (lock : ℕ) (shutdown : Bool)
    → (s : ServiceShm) (ws : List Wake) → NoResponse ws
    → has_reply (call pid bytes size c lock shutdown s ws).1 ≡ false
unfolding call
call_mute pid bytes size c lock shutdown s ws v =
    ground (arith, request_reply_mute pid bytes size c _ (wait_free-Rest s shutdown ws v))
