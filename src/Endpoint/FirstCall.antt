-- ===== src/Endpoint/FirstCall.antt =====
-- From the constructors to the first call: registry, server, client and channel together.
use com_ipc.Common.{
  ℕ, ◌+◌, ◌≤◌, ◌≡◌, refl, ap, ◌∙◌, inl, inr, List, [], ◌∷◌, ◌++◌, Bool, true, false, Option, some,
  none, Result, ok, throw, lock_robust, length, leb, Bool-cases, arith, server_failed,
}
use mathlib.Core.Path.{subst}
use com_ipc.CString.{IsText}
use com_ipc.Types.{ServiceShm, max_services, max_msg_size}
use com_ipc.Posix.{Posix, service_shm}
use com_ipc.Manager.{SystemManagerShm, registered, enter}
use com_ipc.Manager.Life
use com_ipc.Manager.Services.{FindsService, create_or_get_service-FindsService, Reach-FindsService}
use com_ipc.Manager.Segments.{
  create_or_get_service, create_service, create_file, get_service, init_created, init_service,
  open_file, shm_name, service_prefix,
}
use com_ipc.Manager.Segments.Registry
use com_ipc.Service.{Wake, ServiceClient, ServiceCallback, replied, call, post, serve}
use com_ipc.Service.Exchange.{call-serve}
use com_ipc.Endpoint.{built, Turn, poll, find_service, service_server, service_client}
use com_ipc.Endpoint.Meeting.{or_throw-ok}
use com_ipc.Endpoint.Polling.{IsLive}

module _ (P : Posix) where
  open P use {Os, load_service, store_service}

  -- Looks that find nothing.
  abbrev pub Misses : List ℕ → List (Turn P) → Type 0
  Misses name [] = Unit {0}
  Misses name (t ∷ ts) =
      (t.shutdown ≡ false)
      × ((m : SystemManagerShm) × (os : Os) × (find_service P name t ≡ (ok none, m, os)))
      × Misses name ts

  poll-Misses :
      (name : List ℕ) (tried : Bool) (ts : List (Turn P)) (t : Turn P) (rest : List (Turn P))
      → {a : ℕ} {m : SystemManagerShm} {os : Os} → Misses name ts
      → t.shutdown ≡ false
      → find_service P name t ≡ (ok (some a), m, os)
      → poll P (find_service P name) tried (ts ++ t ∷ rest) ≡ built (some a, os)
  unfolding poll
  poll-Misses name tried [] t rest w v e = rw (v, e)
  poll-Misses name tried (t' ∷ ts) t rest (d, (_, _, f), w) v e =
      rw (d, f) (poll-Misses name true ts t rest w v e)

  find_service_present :
      (name : List ℕ) (t : Turn P) (a : ℕ) (os : Os)
      → IsLive P t
      → FindsService name t.manager
      → open_file P service_shm (shm_name service_prefix name) t.os ≡ (some a, os)
      → find_service P name t ≡ (ok (some a), t.manager, os)
  unfolding create_or_get_service get_service lock_robust
  find_service_present name t a os v f e = ground (arith, e, f, v)

  -- Memory of services that keeps what is stored.
  abbrev pub KeepsServices : Type 0
  KeepsServices = (a : ℕ) (s : ServiceShm) (os : Os) → load_service a (store_service a s os) ≡ s

  -- A server leaves the flag of a request down.
  abbrev IsFree : Option ℕ → Os → Type 0
  IsFree none os = Unit {0}
  IsFree (some a) os = (load_service a os).has_request ≡ false

  module _ (law : KeepsServices) where
    init_service-IsFree :
        (a : ℕ) (os : Os) → (load_service a (init_service P a os)).has_request ≡ false
    init_service-IsFree a os =
        ap (λ (s : ServiceShm). s.has_request)
          (law a (record (load_service a os) { has_request = false; has_response = false }) os)

    init_created-IsFree : (x : Option ℕ × Os) → let (r, os) = init_created P x in IsFree r os
    init_created-IsFree (none, os) = tt
    init_created-IsFree (some a, os) = init_service-IsFree a os

    create_service-IsFree :
        (name : List ℕ) (m : SystemManagerShm) (os : Os)
        → let (r, _, os') = create_service P name true m os in IsFree r os'
    unfolding create_service
    create_service-IsFree name m os = elim (Bool-cases (leb max_services m.service_count)) [
      | inl full ↦ rw full tt
      | inr room ↦ rw room (go (create_file P service_shm file (P.shm_open_new file os)))
    ]
      where
        file : List ℕ
        file = shm_name service_prefix name

        go :
            (x : Option ℕ × Os)
            → let (r, _, os') = (elim x.0 as (λ _. Option ℕ × SystemManagerShm × Os) [
              | none ↦ (none, m, x.1)
              | some address ↦ (
                some address,
                record m {
                  services = enter m.service_count name m.services;
                  service_count = m.service_count + 1;
                },
                init_service P address x.1,
              )
            ]) in
              IsFree r os'
        go (none, o) = tt
        go (some a, o) = init_service-IsFree a o

    abbrev Frees : Result (Option ℕ) × SystemManagerShm × Os → Type 0
    Frees (ok r, m, os) = IsFree r os
    Frees (throw e, m, os) = Unit {0}

    create_or_get_service-Frees :
        (name : List ℕ) (m : SystemManagerShm) (os : Os)
        → Frees (create_or_get_service P 0 name true m os)
    unfolding create_or_get_service get_service lock_robust
    create_or_get_service-Frees name m os =
        elim (Bool-cases (registered m.service_count m.services name)) [
          | inl old ↦ rw old (init_created-IsFree _)
          | inr new ↦ rw new (create_service-IsFree name m os)
        ]

    -- From the constructors to the first answer, on a kernel whose memory keeps what is stored. A
    -- server is constructed, from a valid registry and under a name of at most 63 characters (none of
    -- them zero); processes do to the registry what they like; a client of that name is constructed,
    -- which looks as often as it has to, the last time with the lock and no shutdown, and with the
    -- kernel opening the file. If the segment is then still as the server left it, the first call of
    -- that client, which the server serves while it waits, gets exactly what the callback answers to
    -- its bytes, for an answer of at most 256 bytes.
    pub first_call :
        (name : List ℕ) (m m' : SystemManagerShm) (os os' : Os) (address : ℕ)
        → (ts : List (Turn P)) (t : Turn P) (rest : List (Turn P)) (a : ℕ) (opened : Os)
        → (cb : ServiceCallback) (pid : ℕ) (bytes answer : List ℕ) (later : List Wake)
        → Registry.IsValid m
        → IsText name
        → length name ≤ 63
        → service_server P 0 name m os ≡ (ok address, m', os')
        → Misses name ts
        → IsLive P t
        → Life.Reach P m' t.manager
        → open_file P service_shm (shm_name service_prefix name) t.os ≡ (some a, opened)
        → load_service a opened ≡ load_service address os'
        → cb bytes (length bytes) ≡ some answer
        → length answer ≤ max_msg_size
        → let channel = load_service a opened in
          let client : ServiceClient = record { mapped = true; next_req_id = 0 } in
          let posted = post pid 1 bytes channel in
          let wake : Wake = record { ret = 0; shm = serve cb posted posted; shutdown = false } in
          (service_client P name (ts ++ t ∷ rest) ≡ built (some a, opened))
          × (end : ServiceShm) × (call pid bytes
                (length answer)
                client
                0
                false
                channel
                (wake ∷ later)
              ≡ (record client { next_req_id = 1 }, replied answer end))
    unfolding service_server service_client
    first_call name m m' os os' address ts t rest a opened cb pid bytes answer later v text fits
          made w live r e same given small =
        let got =
          or_throw-ok P server_failed (create_or_get_service P 0 name true m os) address m' os'
            made in
        let found = create_or_get_service-FindsService P name address os os' v text fits got in
        let there = Reach-FindsService P name m' t.manager r found in
        let free : (load_service address os').has_request ≡ false =
          subst Frees got (create_or_get_service-Frees name m os) in
        let client : ServiceClient = record { mapped = true; next_req_id = 0 } in
        let (end, called, _, _) =
          call-serve cb pid bytes answer client (load_service a opened) later refl
            (ap (λ (s : ServiceShm). s.has_request) same ∙ free) given small in
        (
          poll-Misses name false ts t rest w (live.0)
              (find_service_present name t a opened live there e),
          end,
          called,
        )
