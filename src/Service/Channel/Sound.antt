-- ===== src/Service/Channel/Sound.antt =====
-- What holds of the channel of a service, whatever its client and its server do.
use com_ipc.Common.{
  ℕ, ◌+◌, ◌≤◌, ◌≡◌, refl, ap, ◌∙◌, inl, inr, List, ◌∷◌, true, Option, some, none, Bool-cases,
  length, arith,
}
use mathlib.Core.Path.{subst}
use mathlib.Core.List.{Memᴰ}
use mathlib.Core.List.Memᴰ
use com_ipc.Types.{ServiceRequestHeader, ServiceResponseHeader, ServiceShm}
use com_ipc.Service.{ServiceCallback, is_pending, respond}
use com_ipc.Service.Channel.{
  Channel, opened, ask, ServerStep, copies, answers, dies, wipes, ClientStep, asks, gives_up, takes,
  ServerSteps, none_yet, one_more, Reach, start, by_server, by_client,
}

-- A request that the client has made.
abbrev pub Known : Channel → ServiceRequestHeader → Type 0
Known x req = Memᴰ (req.request_id, req.bytes) x.asked × (req.data_size ≡ length req.bytes)

of_some :
    (a b : ServiceRequestHeader) → ◌≡◌ {A = Option ServiceRequestHeader} (some a) (some b) → a ≡ b
of_some a b e = ap from e
  where
    from : Option ServiceRequestHeader → ServiceRequestHeader
    from none = a
    from (some c) = c

has_pending : (s : ServiceShm) → is_pending s ≡ true → s.has_request ≡ true
has_pending s p = elim (Bool-cases s.has_request) [ inl h ↦ h | inr h ↦ cc (rw h at p) ]

module _ (cb : ServiceCallback) where
  -- A response to a request that the client has made.
  abbrev pub Right : Channel → ServiceResponseHeader → Type 0
  Right x r =
      (bytes : List ℕ) × Memᴰ (r.request_id, bytes) x.asked
      × (cb bytes (length bytes) ≡ some r.bytes)

  -- Requests are known, responses are right, and no number is above the counter.
  pub record IsSound (x : Channel) : Type 0 where
    pub request : x.segment.has_request ≡ true → Known x x.segment.request
    pub copy : (req : ServiceRequestHeader) → x.copied ≡ some req → Known x req
    pub response : x.segment.has_response ≡ true → Right x x.segment.response
    pub numbers : (id : ℕ) (bytes : List ℕ) → Memᴰ (id, bytes) x.asked → id ≤ x.next_req_id

  pub opened-IsSound : (s : ServiceShm) → IsSound (opened s)
  opened-IsSound s = record {
    request = λ h. cc;
    copy = λ req h. cc;
    response = λ h. cc;
    numbers = λ id bytes m. absurd (Memᴰ.not-nil m);
  }

  answered :
      (x : Channel) (req : ServiceRequestHeader) (r : Option (List ℕ))
      → IsSound x
      → Known x req
      → cb req.bytes req.data_size ≡ r
      → IsSound (record x { segment = respond req r x.segment; copied = none })
  unfolding respond
  answered x req none v k e = record {
    request = λ h. cc;
    copy = λ req h. cc;
    response = v.response;
    numbers = v.numbers;
  }
  answered x req (some bytes) v k e = record {
    request = λ h. cc;
    copy = λ req h. cc;
    response = λ h. (req.bytes, k.0, subst (λ n. cb req.bytes n ≡ some bytes) k.1 e);
    numbers = v.numbers;
  }

  ServerStep-IsSound : {x y : Channel} → ServerStep cb x y → IsSound x → IsSound y
  ServerStep-IsSound {x} (copies p) v = record {
    request = v.request;
    copy = λ req h.
        subst (Known x) (of_some x.segment.request req h) (v.request (has_pending x.segment p));
    response = v.response;
    numbers = v.numbers;
  }
  ServerStep-IsSound {x} (answers req e) v = answered x req _ v (v.copy req e) refl
  ServerStep-IsSound {x} dies v = record {
    request = v.request;
    copy = λ req h. cc;
    response = v.response;
    numbers = v.numbers;
  }
  ServerStep-IsSound {x} wipes v = record {
    request = λ h. cc;
    copy = v.copy;
    response = λ h. cc;
    numbers = v.numbers;
  }

  pub ask-IsSound : (pid : ℕ) (bytes : List ℕ) (x : Channel) → IsSound x → IsSound (ask pid bytes x)
  ask-IsSound pid bytes x v = record {
    request = λ h. (Memᴰ.head refl, refl);
    copy = λ req h. (Memᴰ.tail (v.copy req h).0, (v.copy req h).1);
    response = λ h. cc;
    numbers = λ id b m. elim (Memᴰ.cases_cons m) [
      | inl e ↦ let same = ap (λ (q : ℕ × List ℕ). q.0) e in omega (arith, same)
      | inr old ↦ omega (arith, v.numbers id b old)
    ];
  }

  ClientStep-IsSound : {pid : ℕ} {x y : Channel} → ClientStep cb pid x y → IsSound x → IsSound y
  ClientStep-IsSound {pid} {x} (asks bytes) v = ask-IsSound pid bytes x v
  ClientStep-IsSound gives_up v = record {
    request = λ h. cc;
    copy = v.copy;
    response = λ h. cc;
    numbers = v.numbers;
  }
  ClientStep-IsSound takes v = record {
    request = v.request;
    copy = v.copy;
    response = λ h. cc;
    numbers = v.numbers;
  }

  pub ServerSteps-IsSound : {x y : Channel} → ServerSteps cb x y → IsSound x → IsSound y
  ServerSteps-IsSound none_yet v = v
  ServerSteps-IsSound (one_more r s) v = ServerStep-IsSound s (ServerSteps-IsSound r v)

  pub Reach-IsSound : {pid : ℕ} {x y : Channel} → Reach cb pid x y → IsSound x → IsSound y
  Reach-IsSound start v = v
  Reach-IsSound (by_server r s) v = ServerStep-IsSound s (Reach-IsSound r v)
  Reach-IsSound (by_client r s) v = ClientStep-IsSound s (Reach-IsSound r v)

  ServerStep-asked : {x y : Channel} → ServerStep cb x y → y.asked ≡ x.asked
  ServerStep-asked (copies p) = refl
  ServerStep-asked (answers req e) = refl
  ServerStep-asked dies = refl
  ServerStep-asked wipes = refl

  pub ServerSteps-asked : {x y : Channel} → ServerSteps cb x y → y.asked ≡ x.asked
  ServerSteps-asked none_yet = refl
  ServerSteps-asked (one_more r s) = ServerStep-asked s ∙ ServerSteps-asked r

  -- The number of the last request names this request alone.
  pub own_request :
      (pid : ℕ) (bytes b : List ℕ) (x : Channel)
      → IsSound x
      → Memᴰ (x.next_req_id + 1, b) ((x.next_req_id + 1, bytes) ∷ x.asked)
      → b ≡ bytes
  own_request pid bytes b x v m = elim (Memᴰ.cases_cons m) [
    | inl e ↦ ap (λ (q : ℕ × List ℕ). q.1) e
    | inr old ↦ absurd (omega (arith, v.numbers (x.next_req_id + 1) b old))
  ]
