-- ===== src/Service/Exchange.antt =====
-- A client and a server on one channel.
use com_ipc.Common.{
  ℕ, ◌+◌, ◌%◌, ◌^◌, ◌≤◌, ◌≡◌, refl, ap, ◌⊎◌, inl, inr, List, [], ◌∷◌, true, false, none, some, ok,
  lock_robust, length, take, arith, timed_out, Bool-cases, Option-cases,
}
use com_ipc.Types.{ServiceShm, max_msg_size}
use com_ipc.Service.{
  Wake, clear, post, ServiceClient, replied, refused, call, ServiceCallback, is_pending, serve,
  respond, passed, wait_response, spin_once,
}

take-all : (xs : List ℕ) → take (length xs) xs ≡ xs
take-all [] = refl
take-all (x ∷ xs) = ap (λ r. x ∷ r) (take-all xs)

-- `spinOnce` answers exactly a pending request: the callback gets the request's bytes; its response
-- is written under the number of the request and flagged, or nothing is if it fails; the request's
-- flag is taken down either way. Otherwise the segment stays as it is.
pub spin_once_lem :
    (cb : ServiceCallback) (before after : ServiceShm)
    → ((is_pending before ≡ false) × (spin_once cb true false 0 0 before after ≡ ok before))
      ⊎ ((is_pending before ≡ true)
          × (cb before.request.bytes before.request.data_size ≡ none)
          × (spin_once cb true false 0 0 before after ≡ ok (record after { has_request = false })))
      ⊎ ((bytes : List ℕ) × (is_pending before ≡ true)
          × (cb before.request.bytes before.request.data_size ≡ some bytes)
          × (spin_once cb true false 0 0 before after
              ≡ ok (record after {
                response = record {
                  request_id = before.request.request_id;
                  data_size = length bytes % 2 ^ 32;
                  bytes = bytes;
                };
                has_response = true;
                has_request = false;
              })))
unfolding spin_once lock_robust
spin_once_lem cb before after = elim (Bool-cases (is_pending before)) [
  | inr e ↦ inl (e, rw e)
  | inl e ↦ elim (Option-cases (cb before.request.bytes before.request.data_size)) [
    | inl f ↦ inr (inl (e, f, rw (e, f)))
    | inr (bytes, f) ↦ inr (inr (bytes, e, f, rw (e, f)))
  ]
]

-- A flag that is up is not waited for.
wait_response_now :
    (s : ServiceShm) (ws : List Wake)
    → s.has_response ≡ true
    → wait_response s false ws ≡ passed s false ws
unfolding wait_response
wait_response_now s [] h = rw h
wait_response_now s (w ∷ ws) h = rw h

answered : ServiceShm → List ℕ → ServiceShm → ServiceShm
answered first answer s = respond first.request (some answer) s

-- One exchange: on a free channel, when the server serves the request while the client waits, the
-- client gets exactly what the callback answers to the bytes that it sent, and the channel is free
-- again.
pub call-serve :
    (cb : ServiceCallback) (pid : ℕ) (bytes answer : List ℕ) (c : ServiceClient) (s : ServiceShm)
    → (rest : List Wake) → c.mapped ≡ true
    → s.has_request ≡ false
    → cb bytes (length bytes) ≡ some answer
    → length answer ≤ max_msg_size
    → let posted = post pid (c.next_req_id + 1) bytes s in
      let wake : Wake = record { ret = 0; shm = serve cb posted posted; shutdown = false } in
      (s' : ServiceShm) × (call pid bytes (length answer) c 0 false s (wake ∷ rest)
        ≡ (record c { next_req_id = c.next_req_id + 1 }, replied answer s'))
      × (s'.has_request ≡ false)
      × (s'.has_response ≡ false)
unfolding call serve lock_robust answered
call-serve cb pid bytes answer c s rest m free e fits =
    let posted = post pid (c.next_req_id + 1) bytes s in
    (
      record (respond (post pid (c.next_req_id + 1) bytes s).request (some answer) s) {
        has_response = false;
        request = (post pid (c.next_req_id + 1) bytes s).request;
      },
      ground (arith, take-all answer, wait_response_now (answered posted answer posted) rest),
      refl,
      refl,
    )

-- Requests are numbered by each client on its own, and a client that gives up leaves the server at
-- work. So, whenever two clients stand at the same number: the first posts `a`, the server copies
-- it, the first gives up, the second posts `b`, and the server's response to `a` is taken by the
-- second client as the response to `b`.
pub call_crossed :
    (cb : ServiceCallback) (pid pid' : ℕ) (a b answer : List ℕ) (c c' : ServiceClient)
    → (s : ServiceShm) (rest : List Wake) → c.mapped ≡ true
    → c'.mapped ≡ true
    → s.has_request ≡ false
    → c.next_req_id ≡ c'.next_req_id
    → cb a (length a) ≡ some answer
    → length answer ≤ max_msg_size
    → let first = post pid (c.next_req_id + 1) a s in
      let second = post pid' (c'.next_req_id + 1) b (clear first) in
      let late : Wake = record { ret = timed_out; shm = first; shutdown = false } in
      let wake : Wake = record { ret = 0; shm = serve cb first second; shutdown = false } in
      (s' : ServiceShm) × ((call pid a (length answer) c 0 false s (late ∷ [])).1
        ≡ refused (clear first))
      × ((call pid' b (length answer) c' 0 false (clear first) (wake ∷ rest)).1 ≡ replied answer s')
unfolding call serve lock_robust answered
call_crossed cb pid pid' a b answer c c' s rest m m' free same e fits =
    let first = post pid (c.next_req_id + 1) a s in
    let second = post pid' (c'.next_req_id + 1) b (clear first) in
    (
      record (respond first.request (some answer) second) { has_response = false },
      ground arith,
      ground (arith, take-all answer, wait_response_now (answered first answer second) rest),
    )
