-- ===== src/Manager/Segments/Registry.antt =====
-- The registry of topics and services, for every kernel: what a call registers and what it leaves.
use com_ipc.Common.{
  ℕ, zero, suc, ◌+◌, ◌≤◌, ◌<◌, ◌≡◌, ◌≢◌, refl, ap, ◌⊎◌, inl, inr, List, [], ◌∷◌, Bool, true, false,
  none, some, ok, lock_robust, length, leb, arith, Bool-cases, Option-cases, Result-cases,
}
use com_ipc.CString.{
  IsText, IsField, strncpy, same_chars, strncpy-IsField, same_chars-strncpy, same_chars-eq,
  same_chars-long,
}
use com_ipc.Types.{max_topics, max_services}
use com_ipc.Posix.{Posix, topic_shm}
use com_ipc.Manager.{SystemManagerShm, Entry, registered, enter, new_manager}
use com_ipc.Manager.Segments.{
  create_or_get_topic, create_or_get_service, create_topic, create_file, shm_name, topic_prefix,
}

abbrev pub AreFields : List Entry → Type 0
AreFields [] = Unit {0}
AreFields (e ∷ es) = IsField 63 e.name × AreFields es

-- Both tables have their slots, no more entries are counted than there are slots, and each name
-- ends in a zero.
pub record IsValid (m : SystemManagerShm) : Type 0 where
  pub topic_slots : length m.topics ≡ max_topics
  pub topic_bound : m.topic_count ≤ max_topics
  pub topic_fields : AreFields m.topics
  pub service_slots : length m.services ≡ max_services
  pub service_bound : m.service_count ≤ max_services
  pub service_fields : AreFields m.services

pub new_manager-IsValid : IsValid new_manager
new_manager-IsValid = omega arith

pub length-enter : (i : ℕ) (name : List ℕ) (es : List Entry) → length (enter i name es) ≡ length es
unfolding enter
length-enter i name [] = refl
length-enter zero name (e ∷ es) = refl
length-enter (suc i) name (e ∷ es) = ap suc (length-enter i name es)

enter-AreFields :
    (i : ℕ) (name : List ℕ) (es : List Entry) → AreFields es → AreFields (enter i name es)
unfolding enter
enter-AreFields i name [] v = tt
enter-AreFields zero name (e ∷ es) v = (strncpy-IsField 63 e.name name v.0, v.1)
enter-AreFields (suc i) name (e ∷ es) v = (v.0, enter-AreFields i name es v.1)

-- The entered name is found, if it fits.
pub registered-enter :
    (i : ℕ) (name : List ℕ) (es : List Entry)
    → IsText name
    → length name ≤ 63
    → AreFields es
    → i < length es
    → registered (suc i) (enter i name es) name ≡ true
unfolding registered enter
registered-enter i name [] t fits v h = absurd (omega arith)
registered-enter zero name (e ∷ es) t fits v h =
    ground (arith, same_chars-strncpy 63 e.name name t fits v.0)
registered-enter (suc i) name (e ∷ es) t fits v h =
    ground (arith, registered-enter i name es t fits v.1)

-- Every other name is found or not as before.
registered-enter_ne :
    (i : ℕ) (name other : List ℕ) (es : List Entry)
    → IsText name
    → IsText other
    → length name ≤ 63
    → other ≢ name
    → AreFields es
    → i < length es
    → registered (suc i) (enter i name es) other ≡ registered i es other
unfolding registered enter
registered-enter_ne i name other [] t u fits ne v h = absurd (omega arith)
registered-enter_ne zero name other (e ∷ es) t u fits ne v h =
    elim (Bool-cases (same_chars 64 (strncpy 63 e.name name) other)) [
      | inl s ↦ absurd (ne (same_chars-eq 63 e.name name other t u fits v.0 s))
      | inr s ↦ rw s
    ]
registered-enter_ne (suc i) name other (e ∷ es) t u fits ne v h =
    rw (registered-enter_ne i name other es t u fits ne v.1 (omega arith))

-- A name of 64 characters or more is never found.
registered-long :
    (n : ℕ) (name : List ℕ) (es : List Entry)
    → IsText name
    → 63 < length name
    → AreFields es
    → registered n es name ≡ false
unfolding registered
registered-long zero name es t long v = refl
registered-long (suc n) name [] t long v = refl
registered-long (suc n) name (e ∷ es) t long v =
    ground (arith, same_chars-long 63 e.name name t long v.0, registered-long n name es t long v.1)

-- The manager with one more topic.
abbrev pub with_topic : List ℕ → SystemManagerShm → SystemManagerShm
with_topic name m = record m {
  topics = enter m.topic_count name m.topics;
  topic_count = m.topic_count + 1;
}

module _ (P : Posix) where
  -- Whatever the kernel and the lock return, a call for a topic keeps the tables valid.
  pub create_or_get_topic-IsValid :
      (lock : ℕ) (name : List ℕ) (is_publisher : Bool) {m : SystemManagerShm} (os : P.Os)
      → IsValid m
      → IsValid (create_or_get_topic P lock name is_publisher m os).1
  unfolding create_or_get_topic
  create_or_get_topic-IsValid lock name is_publisher {m} os v = ground (
    arith,
    length-enter m.topic_count name m.topics,
    enter-AreFields m.topic_count name m.topics v.topic_fields,
  )

  -- Whatever the kernel and the lock return, a call for a service keeps the tables valid.
  pub create_or_get_service-IsValid :
      (lock : ℕ) (name : List ℕ) (is_server : Bool) {m : SystemManagerShm} (os : P.Os)
      → IsValid m
      → IsValid (create_or_get_service P lock name is_server m os).1
  unfolding create_or_get_service
  create_or_get_service-IsValid lock name is_server {m} os v = ground (
    arith,
    length-enter m.service_count name m.services,
    enter-AreFields m.service_count name m.services v.service_fields,
  )

  create_topic_cases :
      (name : List ℕ) (is_publisher : Bool) (m : SystemManagerShm) (os : P.Os)
      → let (r, m', _) = create_topic P name is_publisher m os in
        ((r ≡ none) × (m' ≡ m))
        ⊎ ((is_publisher ≡ true)
            × (m.topic_count < max_topics)
            × ((address : ℕ) × (r ≡ some address))
            × (m' ≡ with_topic name m))
  unfolding create_topic
  create_topic_cases name false m os = inl (refl, refl)
  create_topic_cases name true m os = elim (Bool-cases (leb max_topics m.topic_count)) [
    | inl full ↦ rw full (inl (refl, refl))
    | inr room ↦ elim (Option-cases (create_file P topic_shm file (P.shm_open_new file os)).0) [
      | inl e ↦ inl (ground arith, ground arith)
      | inr (a, e) ↦ inr (refl, ground arith, (a, ground arith), ground arith)
    ]
  ]
    where
      file : List ℕ
      file = shm_name topic_prefix name

  -- A call for a topic changes the registry only where a publisher gets a topic that was not
  -- registered and for which there was room, and then by one entry.
  pub create_or_get_topic_change :
      (lock : ℕ) (name : List ℕ) (is_publisher : Bool) (m : SystemManagerShm) (os : P.Os)
      → let (r, m', _) = create_or_get_topic P lock name is_publisher m os in
        (m' ≡ m)
        ⊎ ((is_publisher ≡ true)
            × (registered m.topic_count m.topics name ≡ false)
            × (m.topic_count < max_topics)
            × ((address : ℕ) × (r ≡ ok (some address)))
            × (m' ≡ with_topic name m))
  unfolding create_or_get_topic
  create_or_get_topic_change lock name is_publisher m os =
      elim (Bool-cases (registered m.topic_count m.topics name)) [
        | inl old ↦ inl (ground arith)
        | inr new ↦ elim (create_topic_cases name is_publisher m os) [
          | inl (_, e) ↦ inl (ground arith)
          | inr (p, c, (a, r), e) ↦ elim (Result-cases (lock_robust lock)) [
            | inr (_, l) ↦ inl (ground arith)
            | inl (_, l) ↦ inr (p, new, c, (a, ground arith), ground arith)
          ]
        ]
      ]

  -- A publisher that got its topic, under a name of at most 63 characters, leaves it registered, and
  -- every other name as it was: the next call finds it.
  pub registered-create_or_get_topic :
      (name other : List ℕ) (address : ℕ) {m m' : SystemManagerShm} (os os' : P.Os)
      → IsValid m
      → IsText name
      → IsText other
      → length name ≤ 63
      → other ≢ name
      → create_or_get_topic P 0 name true m os ≡ (ok (some address), m', os')
      → (registered m'.topic_count m'.topics name ≡ true)
        × (registered m'.topic_count m'.topics other ≡ registered m.topic_count m.topics other)
  unfolding create_or_get_topic lock_robust
  registered-create_or_get_topic name other address {m} {m'} os os' v t u fits ne h =
      elim (Bool-cases (registered m.topic_count m.topics name)) [
        | inl old ↦ (ground arith, ground arith)
        | inr new ↦ elim (create_topic_cases name true m os) [
          | inl (r, e) ↦ absurd (ground arith)
          | inr (_, c, _, e) ↦
              let same : m' ≡ with_topic name m = ground arith in
              let next : m.topic_count + 1 ≡ suc m.topic_count = omega arith in
              let inside : m.topic_count < length m.topics = omega (arith, v.topic_slots) in
              rw (same, next)
                (
                  registered-enter m.topic_count name m.topics t fits v.topic_fields inside,
                  registered-enter_ne m.topic_count name other m.topics t u fits ne v.topic_fields
                      inside,
                )
        ]
      ]

  -- A subscriber gets nothing, and changes nothing, as long as its topic is not registered; so does
  -- a publisher of such a topic when the table is full.
  pub create_or_get_topic_absent :
      (name : List ℕ) (is_publisher : Bool) (m : SystemManagerShm) (os : P.Os)
      → registered m.topic_count m.topics name ≡ false
      → (is_publisher ≡ false) ⊎ (max_topics ≤ m.topic_count)
      → create_or_get_topic P 0 name is_publisher m os ≡ (ok none, m, os)
  unfolding create_or_get_topic lock_robust
  create_or_get_topic_absent name is_publisher m os h w = ground arith

  -- No subscriber ever gets a topic whose name has 64 characters or more, whatever was published:
  -- the field holds 63 of them, and the comparison reads 64.
  pub create_or_get_topic_long :
      (name : List ℕ) (m : SystemManagerShm) (os : P.Os)
      → IsValid m
      → IsText name
      → 63 < length name
      → create_or_get_topic P 0 name false m os ≡ (ok none, m, os)
  create_or_get_topic_long name m os v t long =
      create_or_get_topic_absent name false m os
        (registered-long m.topic_count name m.topics t long v.topic_fields) (inl refl)
