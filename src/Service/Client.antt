-- ===== src/Service/Client.antt =====
-- What a client may rely on, whatever the other processes do to the channel.
use com_ipc.Common.{
  ℕ, ◌+◌, ◌≡◌, refl, ◌⊎◌, inl, inr, List, [], ◌∷◌, Bool, true, false, not, ◌&&◌, ◌||◌, lock_robust,
  ◌==◌, take, arith, Bool-cases, Result-cases,
}
use mathlib.Core.Path.{subst, sym}
use com_ipc.Types.{ServiceShm}
use com_ipc.Service.{
  Wake, Phase, passed, gave_up, waiting, wait_free, wait_response, post, ServiceClient, replied,
  finish, request_reply, call,
}

-- A segment that a wait without error found.
abbrev pub Found : ServiceShm → List Wake → Type 0
Found t [] = ⊥
Found t (w ∷ ws) = ((w.ret ≡ 0) × (w.shm ≡ t)) ⊎ Found t ws

here :
    (s t : ServiceShm) (shutdown down : Bool) (ws rest : List Wake)
    → passed s shutdown ws ≡ passed t down rest
    → (s ≡ t) × (shutdown ≡ down)
here s t shutdown down ws rest h = (ground arith, ground arith)

wait_response_passed :
    (s t : ServiceShm) (shutdown : Bool) (ws rest : List Wake)
    → wait_response s shutdown ws ≡ passed t false rest
    → ((s ≡ t) ⊎ Found t ws) × (t.has_response ≡ true)
unfolding wait_response
wait_response_passed s t shutdown [] rest h =
    elim (Bool-cases (not s.has_response && not shutdown)) [
      | inl e ↦ cc (rw e at h)
      | inr e ↦
          let (same, up) = here s t shutdown false [] rest (rw e at h) in
          (inl same, rw (← same) (ground arith))
    ]
wait_response_passed s t shutdown (w ∷ ws) rest h =
    elim (Bool-cases (not s.has_response && not shutdown)) [
      | inr e ↦
          let (same, up) = here s t shutdown false (w ∷ ws) rest (rw e at h) in
          (inl same, rw (← same) (ground arith))
      | inl e ↦ elim (Bool-cases (w.ret == 0)) [
        | inr z ↦ cc (rw (e, z) at h)
        | inl z ↦
            let (found, flag) = wait_response_passed w.shm t w.shutdown ws rest (rw (e, z) at h) in
            (inr (elim found [ inl at ↦ inl (ground arith, at) | inr later ↦ inr later ]), flag)
      ]
    ]

-- Which response a call takes: one that is flagged, that carries the number of this request and the
-- expected size, and that a wait of this call found. The flag is taken down, and nothing else of
-- the segment changes.
pub record Takes (id size : ℕ) (ws : List Wake) (bytes : List ℕ) (s t : ServiceShm) : Type 0 where
  pub found : Found t ws
  pub flagged : t.has_response ≡ true
  pub numbered : t.response.request_id ≡ id
  pub sized : t.response.data_size ≡ size
  pub copied : bytes ≡ take size t.response.bytes
  pub left : s ≡ record t { has_response = false }

finish_replied :
    (id size : ℕ) (p : Phase) (bytes : List ℕ) (s : ServiceShm)
    → finish id size p ≡ replied bytes s
    → (t : ServiceShm) × (rest : List Wake) × (p ≡ passed t false rest)
      × (t.response.request_id ≡ id)
      × (t.response.data_size ≡ size)
      × (bytes ≡ take size t.response.bytes)
      × (s ≡ record t { has_response = false })
unfolding finish
finish_replied id size (passed t shutdown ws) bytes s h =
    (t, ws, ground arith, ground arith, ground arith, ground arith, ground arith)
finish_replied id size (gave_up t) bytes s h = cc
finish_replied id size waiting bytes s h = cc

-- What is found in the wake-ups that a loop leaves was among those that it had.
wait_free_passed :
    (s t u : ServiceShm) (shutdown down : Bool) (ws rest : List Wake)
    → wait_free s shutdown ws ≡ passed t down rest
    → Found u rest
    → Found u ws
unfolding wait_free
wait_free_passed s t u shutdown down [] rest h f =
    elim (Bool-cases (s.has_request && not shutdown)) [
      | inl e ↦ cc (rw e at h)
      | inr e ↦
          let same : ◌≡◌ {A = List Wake} [] rest = ground arith in subst (Found u) (sym same) f
    ]
wait_free_passed s t u shutdown down (w ∷ ws) rest h f =
    elim (Bool-cases (s.has_request && not shutdown)) [
      | inr e ↦ let same : w ∷ ws ≡ rest = ground arith in subst (Found u) (sym same) f
      | inl e ↦ elim (Bool-cases (w.ret == 0)) [
        | inr z ↦ cc (rw (e, z) at h)
        | inl z ↦ inr (wait_free_passed w.shm t u w.shutdown down ws rest (rw (e, z) at h) f)
      ]
    ]

request_reply-Takes :
    (pid : ℕ) (bytes : List ℕ) (size : ℕ) (c : ServiceClient) (p : Phase) (ws : List Wake)
    → (c' : ServiceClient) (answer : List ℕ) (s' : ServiceShm)
    → ((u t : ServiceShm) (rest : List Wake) → p ≡ passed t false rest → Found u rest → Found u ws)
    → request_reply pid bytes size c p ≡ (c', replied answer s')
    → (c'.next_req_id ≡ c.next_req_id + 1)
      × ((t : ServiceShm) × Takes (c.next_req_id + 1) size ws answer s' t)
unfolding request_reply
request_reply-Takes pid bytes size c (gave_up s) ws c' answer s' sub h = ground arith
request_reply-Takes pid bytes size c waiting ws c' answer s' sub h = ground arith
request_reply-Takes pid bytes size c (passed s true rest) ws c' answer s' sub h = ground arith
request_reply-Takes pid bytes size c (passed s false rest) ws c' answer s' sub h =
    let id = c.next_req_id + 1 in
    let (t, later, p, a, b, d, e) =
      finish_replied id size (wait_response (post pid id bytes s) false rest) answer s'
        (ground arith) in
    let (where', flag) = wait_response_passed (post pid id bytes s) t false rest later p in
    (
      ground arith,
      (
        t,
        record {
          found = elim where' [ inl same ↦ absurd (ground arith) | inr f ↦ sub t s rest refl f ];
          flagged = flag;
          numbered = a;
          sized = b;
          copied = d;
          left = e;
        },
      ),
    )

-- A call that returns true has taken a response of this very request number and of the expected
-- size, and has raised the counter by one.
pub call-Takes :
    (pid : ℕ) (bytes : List ℕ) (size : ℕ) (c : ServiceClient) (lock : ℕ) (shutdown : Bool)
    → (s : ServiceShm) (ws : List Wake) (c' : ServiceClient) (answer : List ℕ) (s' : ServiceShm)
    → call pid bytes size c lock shutdown s ws ≡ (c', replied answer s')
    → (c'.next_req_id ≡ c.next_req_id + 1)
      × ((t : ServiceShm) × Takes (c.next_req_id + 1) size ws answer s' t)
unfolding call
call-Takes pid bytes size c lock shutdown s ws c' answer s' h =
    elim (Bool-cases (not c.mapped || shutdown)) [
      | inl e ↦ absurd (ground arith)
      | inr e ↦ elim (Result-cases (lock_robust lock)) [
        | inr (_, l) ↦ absurd (ground arith)
        | inl (_, l) ↦
            request_reply-Takes pid bytes size c (wait_free s shutdown ws) ws c' answer s'
              (λ u t rest q. wait_free_passed s t u shutdown false ws rest q) (ground arith)
      ]
    ]
