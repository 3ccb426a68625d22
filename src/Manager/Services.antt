-- ===== src/Manager/Services.antt =====
-- The services of a registry through its life.
use com_ipc.Common.{
  ℕ, suc, ◌+◌, ◌<◌, ◌≤◌, ◌≡◌, refl, ◌⊎◌, inl, inr, List, Bool, true, false, some, none, ok,
  lock_robust, length, leb, Bool-cases, Option-cases, Result-cases, arith,
}
use com_ipc.CString.{IsText}
use com_ipc.Types.{max_services}
use com_ipc.Posix.{Posix, service_shm}
use com_ipc.Manager.{SystemManagerShm, registered, enter}
use com_ipc.Manager.Nodes.{register_node, unregister_node}
use com_ipc.Manager.Segments.{
  create_or_get_service, create_service, create_or_get_topic, create_topic, create_file, shm_name,
  service_prefix,
}
use com_ipc.Manager.Segments.Registry
use com_ipc.Manager.Segments.Registry.{registered-enter}
use com_ipc.Manager.Growth.{registered-enter_mono}
use com_ipc.Manager.Life.{
  Step, topic, service, joins, leaves, Reach, here, next, SameEntries, register_node-SameEntries,
  unregister_node-SameEntries,
}

-- The lookup in the registry of services.
abbrev pub FindsService : List ℕ → SystemManagerShm → Type 0
FindsService name m = registered m.service_count m.services name ≡ true

-- The manager with one more service.
abbrev with_service : List ℕ → SystemManagerShm → SystemManagerShm
with_service name m = record m {
  services = enter m.service_count name m.services;
  service_count = m.service_count + 1;
}

with_service-FindsService :
    (new name : List ℕ) (m : SystemManagerShm)
    → FindsService name m
    → FindsService name (with_service new m)
with_service-FindsService new name m h =
    let same : m.service_count + 1 ≡ suc m.service_count = omega arith in
    rw same (registered-enter_mono m.service_count new name m.services h)

entered-FindsService :
    (name : List ℕ) (m : SystemManagerShm)
    → Registry.IsValid m
    → IsText name
    → length name ≤ 63
    → m.service_count < max_services
    → FindsService name (with_service name m)
entered-FindsService name m v t fits room =
    let same : m.service_count + 1 ≡ suc m.service_count = omega arith in
    rw same (
      registered-enter m.service_count name m.services t fits v.service_fields
        (omega (arith, v.service_slots)))

move :
    (name : List ℕ) (m m' : SystemManagerShm)
    → SameEntries m m'
    → FindsService name m
    → FindsService name m'
move name m m' (_, _, a, b) h = rw (a, b) h

module _ (P : Posix) where
  create_service_cases :
      (name : List ℕ) (is_server : Bool) (m : SystemManagerShm) (os : P.Os)
      → let (r, m', _) = create_service P name is_server m os in
        ((r ≡ none) × (m' ≡ m)) ⊎ ((m.service_count < max_services) × (m' ≡ with_service name m))
  unfolding create_service
  create_service_cases name false m os = inl (refl, refl)
  create_service_cases name true m os = elim (Bool-cases (leb max_services m.service_count)) [
    | inl full ↦ rw full (inl (refl, refl))
    | inr room ↦ elim (Option-cases (create_file P service_shm file (P.shm_open_new file os)).0) [
      | inl e ↦ inl (ground arith, ground arith)
      | inr (a, e) ↦ inr (ground arith, ground arith)
    ]
  ]
    where
      file : List ℕ
      file = shm_name service_prefix name

  create_or_get_service_change :
      (lock : ℕ) (name : List ℕ) (is_server : Bool) (m : SystemManagerShm) (os : P.Os)
      → let m' = (create_or_get_service P lock name is_server m os).1 in
        (m' ≡ m) ⊎ ((m.service_count < max_services) × (m' ≡ with_service name m))
  unfolding create_or_get_service
  create_or_get_service_change lock name is_server m os =
      elim (create_service_cases name is_server m os) [
        | inl (_, e) ↦ inl (ground arith)
        | inr (c, e) ↦ elim (Bool-cases (registered m.service_count m.services name)) [
          | inl old ↦ inl (ground arith)
          | inr new ↦ elim (Result-cases (lock_robust lock)) [
            | inr (_, l) ↦ inl (ground arith)
            | inl (_, l) ↦ inr (c, ground arith)
          ]
        ]
      ]

  -- A server that got its service, under a name of at most 63 characters, leaves it registered.
  pub create_or_get_service-FindsService :
      (name : List ℕ) (address : ℕ) {m m' : SystemManagerShm} (os os' : P.Os)
      → Registry.IsValid m
      → IsText name
      → length name ≤ 63
      → create_or_get_service P 0 name true m os ≡ (ok (some address), m', os')
      → FindsService name m'
  unfolding create_or_get_service lock_robust
  create_or_get_service-FindsService name address {m} {m'} os os' v t fits h =
      elim (Bool-cases (registered m.service_count m.services name)) [
        | inl old ↦ ground arith
        | inr new ↦ elim (create_service_cases name true m os) [
          | inl (r, e) ↦ absurd (ground arith)
          | inr (c, e) ↦
              let same : m' ≡ with_service name m = ground arith in
              rw same (entered-FindsService name m v t fits c)
        ]
      ]

  create_or_get_topic-services :
      (lock : ℕ) (name : List ℕ) (is_publisher : Bool) (m : SystemManagerShm) (os : P.Os)
      → let m' = (create_or_get_topic P lock name is_publisher m os).1 in
        (m'.services ≡ m.services) × (m'.service_count ≡ m.service_count)
  unfolding create_or_get_topic create_topic
  create_or_get_topic-services lock name is_publisher m os = ground arith

  Step-FindsService :
      (name : List ℕ) (m m' : SystemManagerShm)
      → Step P m m'
      → FindsService name m
      → FindsService name m'
  Step-FindsService name m m' (topic lock new is_publisher os) h =
      let (a, b) = create_or_get_topic-services lock new is_publisher m os in rw (a, b) h
  Step-FindsService name m m' (service lock new is_server os) h =
      elim (create_or_get_service_change lock new is_server m os) [
        | inl e ↦ rw e h
        | inr (_, e) ↦ rw e (with_service-FindsService new name m h)
      ]
  Step-FindsService name m m' (joins lock new pid) h =
      move name m (register_node lock new pid m).1 (register_node-SameEntries lock new pid m) h
  Step-FindsService name m m' (leaves lock id) h =
      move name m (unregister_node lock id m).1 (unregister_node-SameEntries lock id m) h

  pub Reach-FindsService :
      (name : List ℕ) (m m' : SystemManagerShm)
      → Reach P m m'
      → FindsService name m
      → FindsService name m'
  Reach-FindsService name m m' here h = h
  Reach-FindsService name m m' (next {k} r s) h =
      Step-FindsService name k m' s (Reach-FindsService name m k r h)
