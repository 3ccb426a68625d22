-- ===== src/Service/Channel/Finds.antt =====
-- The call of a client, by the segments that it finds.
use com_ipc.Common.{
  ℕ, ◌+◌, ◌≡◌, ◌⊎◌, inl, inr, List, [], ◌∷◌, Bool, true, false, not, ◌&&◌, ◌||◌, ◌==◌, Bool-cases,
  take, arith, Result-cases, lock_robust,
}
use com_ipc.Types.{ServiceShm}
use com_ipc.Service.{
  Wake, Phase, passed, gave_up, waiting, post, wait_free, wait_response, finish, request_reply,
  ServiceClient, replied, call,
}

-- A waiting loop is passed at one of the segments that it found, with a response or at a shutdown.
abbrev pub Found : (ServiceShm → Type 0) → Phase → Type 0
Found V (passed s shutdown ws) = V s × ((s.has_response ≡ true) ⊎ (shutdown ≡ true))
Found V (gave_up s) = Unit {0}
Found V waiting = Unit {0}

abbrev pub AllSegments : (ServiceShm → Type 0) → List Wake → Type 0
AllSegments V [] = Unit {0}
AllSegments V (w ∷ ws) = V w.shm × AllSegments V ws

looked :
    (s : ServiceShm) (shutdown : Bool)
    → (not s.has_response && not shutdown) ≡ false
    → (s.has_response ≡ true) ⊎ (shutdown ≡ true)
looked s shutdown e = elim (Bool-cases s.has_response) [
  | inl h ↦ inl h
  | inr h ↦ elim (Bool-cases shutdown) [ inl d ↦ inr d | inr d ↦ cc (rw (h, d) at e) ]
]

pub wait_response-Found :
    (V : ServiceShm → Type 0) (s : ServiceShm) (shutdown : Bool) (ws : List Wake)
    → V s
    → AllSegments V ws
    → Found V (wait_response s shutdown ws)
unfolding wait_response
wait_response-Found V s shutdown [] v vs = elim (Bool-cases (not s.has_response && not shutdown)) [
  | inl e ↦ rw e tt
  | inr e ↦ rw e (v, looked s shutdown e)
]
wait_response-Found V s shutdown (w ∷ ws) v vs =
    elim (Bool-cases (not s.has_response && not shutdown)) [
      | inr e ↦ rw e (v, looked s shutdown e)
      | inl e ↦ elim (Bool-cases (w.ret == 0)) [
        | inl z ↦ rw (e, z) (wait_response-Found V w.shm w.shutdown ws vs.0 vs.1)
        | inr z ↦ rw (e, z) tt
      ]
    ]

-- A call that returns true takes the response of its number in one of those segments.
pub finish-Found :
    (V : ServiceShm → Type 0) (id size : ℕ) (p : Phase) (r : List ℕ) (end : ServiceShm)
    → Found V p
    → finish id size p ≡ replied r end
    → (s : ServiceShm) × V s
      × (s.has_response ≡ true)
      × (s.response.request_id ≡ id)
      × (r ≡ take size s.response.bytes)
unfolding finish
finish-Found V id size (passed s shutdown ws) r end (v, inr d) e = cc (rw d at e)
finish-Found V id size (passed s true ws) r end (v, inl h) e = cc
finish-Found V id size (passed s false ws) r end (v, inl h) e =
    (s, v, h, ground arith, ground arith)
finish-Found V id size (gave_up s) r end f e = cc
finish-Found V id size waiting r end f e = cc

pub call-passed :
    (pid : ℕ) (bytes : List ℕ) (size : ℕ) (c : ServiceClient) (lock : ℕ) (shutdown : Bool)
    → (s t : ServiceShm) (ws rest : List Wake) (r : List ℕ) (end : ServiceShm)
    → wait_free s shutdown ws ≡ passed t false rest
    → (call pid bytes size c lock shutdown s ws).1 ≡ replied r end
    → finish
        (c.next_req_id + 1)
        size
        (wait_response (post pid (c.next_req_id + 1) bytes t) false rest)
      ≡ replied r end
unfolding call request_reply
call-passed pid bytes size c lock shutdown s t ws rest r end p e =
    elim (Bool-cases (not c.mapped || shutdown)) [
      | inl g ↦ cc (rw g at e)
      | inr g ↦ elim (Result-cases (lock_robust lock)) [
        | inr (_, l) ↦ cc (rw (g, l) at e)
        | inl (_, l) ↦ rw (g, l, p) at e
      ]
    ]
