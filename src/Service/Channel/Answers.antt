-- ===== src/Service/Channel/Answers.antt =====
-- What a client is answered.
use com_ipc.Common.{ℕ, ◌+◌, ◌≡◌, refl, ap, sym, ◌∙◌, List, Bool, false, some, length, take}
use mathlib.Core.Path.{subst}
use mathlib.Core.List.{Memᴰ}
use com_ipc.Types.{ServiceShm}
use com_ipc.Service.{
  ServiceCallback, Wake, passed, post, wait_free, wait_response, finish, ServiceClient, replied,
  call,
}
use com_ipc.Service.Channel.{Channel, opened, ask, ServerSteps, none_yet, Reach}
use com_ipc.Service.Channel.Sound.{
  IsSound, opened-IsSound, ask-IsSound, ServerSteps-IsSound, Reach-IsSound, ServerSteps-asked,
  own_request,
}
use com_ipc.Service.Channel.Finds.{AllSegments, wait_response-Found, finish-Found, call-passed}

module _ (cb : ServiceCallback) where
  -- A segment that the server makes of a channel.
  abbrev pub Becomes : Channel → ServiceShm → Type 0
  Becomes x s = (y : Channel) × ServerSteps cb x y × (y.segment ≡ s)

  -- One client and one server, in any interleaving of their sections: where a call passes its first
  -- loop on a channel that has come from a free one by steps of both, and finds from then on only
  -- what the server makes of it, what it returns true with are the bytes that the callback answers to
  -- this very request, cut to the expected size; whatever was given up before, late responses to
  -- earlier requests and servers that died or started again included.
  pub call_answered :
      (pid : ℕ) (x : Channel) (first s : ServiceShm) (bytes : List ℕ) (size : ℕ) (c : ServiceClient)
      → (lock : ℕ) (shutdown : Bool) (ws rest : List Wake) (r : List ℕ) (end : ServiceShm)
      → Reach cb pid (opened first) x
      → c.next_req_id ≡ x.next_req_id
      → wait_free s shutdown ws ≡ passed x.segment false rest
      → AllSegments (Becomes (ask pid bytes x)) rest
      → (call pid bytes size c lock shutdown s ws).1 ≡ replied r end
      → (answer : List ℕ) × (cb bytes (length bytes) ≡ some answer) × (r ≡ take size answer)
  call_answered pid x first s bytes size c lock shutdown ws rest r end reached same p seen e =
      let v : IsSound cb x = Reach-IsSound cb reached (opened-IsSound cb first) in
      let asked : Channel = ask pid bytes x in
      let ends = call-passed pid bytes size c lock shutdown s x.segment ws rest r end p e in
      let ends' =
        subst
          (λ n.
            finish (n + 1) size (wait_response (post pid (n + 1) bytes x.segment) false rest)
            ≡ replied r end)
          same ends in
      let (t, (y, steps, at), has, number, taken) =
        finish-Found (Becomes asked) (x.next_req_id + 1) size
          (wait_response asked.segment false rest) r end
          (wait_response-Found (Becomes asked) asked.segment false rest (asked, none_yet, refl)
            seen)
          ends' in
      let w : IsSound cb y = ServerSteps-IsSound cb steps (ask-IsSound cb pid bytes x v) in
      let (b, known, given) = w.response (ap (λ (u : ServiceShm). u.has_response) at ∙ has) in
      let number' : y.segment.response.request_id ≡ x.next_req_id + 1 =
        ap (λ (u : ServiceShm). u.response.request_id) at ∙ number in
      let own : Memᴰ (x.next_req_id + 1, b) asked.asked =
        subst (λ l. Memᴰ (x.next_req_id + 1, b) l) (ServerSteps-asked cb steps)
          (subst (λ k. Memᴰ (k, b) y.asked) number' known) in
      (
        y.segment.response.bytes,
        subst (λ k. cb k (length k) ≡ some y.segment.response.bytes)
            (own_request cb pid bytes b x v own) given,
        taken ∙ ap (λ (u : ServiceShm). take size u.response.bytes) (sym at),
      )
