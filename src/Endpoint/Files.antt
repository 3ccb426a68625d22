-- ===== src/Endpoint/Files.antt =====
-- Which file the segment of a publisher and that of a subscriber stand for: the names of files, from
-- createOrGetTopic of src/system_manager.cpp to the mapped memory.
use com_ipc.Common.{
  ℕ, ◌≡◌, refl, sym, ap, ◌∙◌, inl, inr, List, [], true, Option, some, none, Result, ok, throw,
  lock_robust, if◌then◌else◌, Bool-cases, Option-cases, leb, ◌==◌, publisher_failed,
}
use mathlib.Core.Path.{subst}
use com_ipc.Types.{TopicShm, max_topics}
use com_ipc.Posix.{Posix, Opened, opened, refused, eexist, Segment, topic_shm}
use com_ipc.Manager.{SystemManagerShm, registered}
use com_ipc.Manager.Segments.{
  map_file, size_file, size_opened, create_file, open_file, get_topic, count_subscriber,
  create_topic, create_or_get_topic, init_topic, shm_name, topic_prefix,
}
use com_ipc.Endpoint.{publisher}
use com_ipc.Endpoint.Polling.{IsQuiet, settled}
use com_ipc.Endpoint.Meeting.{or_throw-ok}

-- The files behind names, descriptors and addresses. An open leads to the file of the name, a mapping
-- to the file of the descriptor, and two mappings of one file show the same memory.
pub record Files (P : Posix) : Type 0 where
  pub named : List ℕ → P.Os → Option ℕ
  pub described : ℕ → P.Os → Option ℕ
  pub mapped : ℕ → P.Os → Option ℕ
  pub open_new :
      (file : List ℕ) (fd : ℕ) (os : P.Os)
      → (P.shm_open_new file os).0 ≡ opened fd
      → described fd (P.shm_open_new file os).1 ≡ named file (P.shm_open_new file os).1
  pub open_old :
      (file : List ℕ) (fd : ℕ) (os : P.Os)
      → (P.shm_open file os).0 ≡ opened fd
      → (described fd (P.shm_open file os).1 ≡ named file os)
        × (named file (P.shm_open file os).1 ≡ named file os)
  pub sized :
      (file : List ℕ) (fd : ℕ) (kind : Segment) (os : P.Os)
      → (described fd (P.ftruncate fd kind os).1 ≡ described fd os)
        × (named file (P.ftruncate fd kind os).1 ≡ named file os)
  pub at_address :
      (fd a : ℕ) (kind : Segment) (os : P.Os)
      → (P.mmap fd kind os).0 ≡ some a
      → mapped a (P.mmap fd kind os).1 ≡ described fd os
  pub of_mmap :
      (file : List ℕ) (fd : ℕ) (kind : Segment) (os : P.Os)
      → named file (P.mmap fd kind os).1 ≡ named file os
  pub of_close :
      (file : List ℕ) (fd a : ℕ) (os : P.Os)
      → (mapped a (P.close fd os) ≡ mapped a os) × (named file (P.close fd os) ≡ named file os)
  pub of_lock : (a b : ℕ) (os : P.Os) → mapped b (P.mutex_lock a os).1 ≡ mapped b os
  pub of_unlock : (a b : ℕ) (os : P.Os) → mapped b (P.mutex_unlock a os) ≡ mapped b os
  pub of_store :
      (file : List ℕ) (a b : ℕ) (t : TopicShm) (os : P.Os)
      → (mapped b (P.store_topic a t os) ≡ mapped b os)
        × (named file (P.store_topic a t os) ≡ named file os)
  pub one_memory :
      (a b : ℕ) (os : P.Os) → mapped a os ≡ mapped b os → P.load_topic a os ≡ P.load_topic b os

module _ (P : Posix) (F : Files P) where
  open P use {
    Os, shm_open_new, shm_open, shm_unlink, ftruncate, mmap, close, mutex_lock, mutex_unlock,
    load_topic, store_topic,
  }
  open F use {named, described, mapped}

  -- The descriptor, or the address, is one of the file that the name leads to.
  abbrev IsOpened : List ℕ → Opened × Os → Type 0
  IsOpened file (opened fd, os) = described fd os ≡ named file os
  IsOpened file (refused e, os) = Unit {0}

  abbrev IsAt : List ℕ → Option ℕ × Os → Type 0
  IsAt file (some a, os) = mapped a os ≡ named file os
  IsAt file (none, os) = Unit {0}

  map_file-IsAt :
      (file : List ℕ) (fd : ℕ) (kind : Segment) (os : Os)
      → described fd os ≡ named file os
      → IsAt file (map_file P kind fd os)
  unfolding map_file
  map_file-IsAt file fd kind os d = elim (Option-cases (mmap fd kind os).0) [
    | inl e ↦ rw e tt
    | inr (a, e) ↦
        let at = F.at_address fd a kind os e in
        let same = F.of_mmap file fd kind os in
        let (kept, kept_name) = F.of_close file fd a (mmap fd kind os).1 in
        rw e (kept ∙ at ∙ d ∙ sym same ∙ sym kept_name)
  ]

  map_file-named :
      (file : List ℕ) (fd : ℕ) (kind : Segment) (os : Os)
      → named file (map_file P kind fd os).1 ≡ named file os
  unfolding map_file
  map_file-named file fd kind os =
      (F.of_close file fd 0 (mmap fd kind os).1).1 ∙ F.of_mmap file fd kind os

  size_file-IsAt :
      (file : List ℕ) (fd : ℕ) (kind : Segment) (os : Os)
      → described fd os ≡ named file os
      → IsAt file (size_file P kind fd os)
  unfolding size_file
  size_file-IsAt file fd kind os d = elim (Bool-cases (ftruncate fd kind os).0) [
    | inr e ↦ rw e tt
    | inl e ↦
        let (kept, same) = F.sized file fd kind os in
        rw e (map_file-IsAt file fd kind (ftruncate fd kind os).1 (kept ∙ d ∙ sym same))
  ]

  size_opened-IsAt :
      (file : List ℕ) (kind : Segment) (x : Opened × Os)
      → IsOpened file x
      → IsAt file (size_opened P kind x)
  size_opened-IsAt file kind (opened fd, os) d = size_file-IsAt file fd kind os d
  size_opened-IsAt file kind (refused e, os) d = tt

  shm_open_new-IsOpened : (file : List ℕ) (os : Os) → IsOpened file (shm_open_new file os)
  shm_open_new-IsOpened file os = of ((shm_open_new file os).0) (λ fd e. F.open_new file fd os e)
    where
      of :
          (r : Opened)
          → ((fd : ℕ)
              → r ≡ opened fd
              → described fd (shm_open_new file os).1 ≡ named file (shm_open_new file os).1)
          → IsOpened file (r, (shm_open_new file os).1)
      of (opened fd) h = h fd refl
      of (refused e) h = tt

  create_file-IsAt :
      (file : List ℕ) (kind : Segment) (x : Opened × Os)
      → IsOpened file x
      → IsAt file (create_file P kind file x)
  unfolding create_file
  create_file-IsAt file kind (opened fd, os) d = size_file-IsAt file fd kind os d
  create_file-IsAt file kind (refused e, os) d = elim (Bool-cases (e == eexist)) [
    | inl h ↦ rw h (size_opened-IsAt file kind _ (shm_open_new-IsOpened file (shm_unlink file os)))
    | inr h ↦ rw h tt
  ]

  pub open_file-mapped :
      (file : List ℕ) (a : ℕ) (kind : Segment) (os os' : Os)
      → open_file P kind file os ≡ (some a, os')
      → (mapped a os' ≡ named file os) × (named file os' ≡ named file os)
  unfolding open_file
  open_file-mapped file a kind os os' e = of ((shm_open file os).0) refl e
    where
      of :
          (r : Opened)
          → (shm_open file os).0 ≡ r
          → (elim r [
            | opened fd ↦ map_file P kind fd (shm_open file os).1
            | refused e ↦ (none, (shm_open file os).1)
          ])
            ≡ (some a, os')
          → (mapped a os' ≡ named file os) × (named file os' ≡ named file os)
      of (refused x) h e = cc
      of (opened fd) h e =
          let (led, kept) = F.open_old file fd os h in
          let at : IsAt file (some a, os') =
            subst (IsAt file) e
              (map_file-IsAt file fd kind (shm_open file os).1 (led ∙ sym kept)) in
          let same : named file os' ≡ named file os =
            ap (λ (x : Option ℕ × Os). named file x.1) (sym e)
            ∙ map_file-named file fd kind (shm_open file os).1
            ∙ kept in
          (at ∙ same, same)

  -- What `createOrGetTopic` gives a publisher.
  abbrev AtResult : List ℕ → Result (Option ℕ) × SystemManagerShm × Os → Type 0
  AtResult file (ok (some a), m, os) = mapped a os ≡ named file os
  AtResult file (ok none, m, os) = Unit {0}
  AtResult file (throw e, m, os) = Unit {0}

  init_topic-IsAt :
      (file : List ℕ) (a : ℕ) (os : Os)
      → mapped a os ≡ named file os
      → mapped a (init_topic P a os) ≡ named file (init_topic P a os)
  init_topic-IsAt file a os h = let (kept, same) = F.of_store file a a _ os in kept ∙ h ∙ sym same

  create_topic-AtResult :
      (name : List ℕ) (m : SystemManagerShm) (os : Os)
      → let (r, m1, os1) = create_topic P name true m os in
        AtResult (shm_name topic_prefix name) (ok r, m1, os1)
  unfolding create_topic
  create_topic-AtResult name m os =
      let file = shm_name topic_prefix name in
      let x = create_file P topic_shm file (shm_open_new file os) in
      let at : IsAt file x =
        create_file-IsAt file topic_shm (shm_open_new file os) (shm_open_new-IsOpened file os) in
      elim (Bool-cases (leb max_topics m.topic_count)) [
        | inl full ↦ rw full tt
        | inr room ↦ elim (Option-cases x.0) [
          | inl e ↦ rw (room, e) tt
          | inr (a, e) ↦
              let here : mapped a x.1 ≡ named file x.1 =
                subst (λ (r : Option ℕ). IsAt file (r, x.1)) e at in
              rw (room, e) (init_topic-IsAt file a x.1 here)
        ]
      ]

  get_topic-AtResult :
      (name : List ℕ) (m : SystemManagerShm) (os : Os)
      → let (r, os1) = get_topic P name true os in AtResult (shm_name topic_prefix name) (r, m, os1)
  unfolding get_topic
  get_topic-AtResult name m os = of x.0 (λ a e.
      let (at, same) = open_file-mapped file a topic_shm os x.1 (ap (λ r. (r, x.1)) e) in
      at ∙ sym same)
    where
      file : List ℕ
      file = shm_name topic_prefix name

      x : Option ℕ × Os
      x = open_file P topic_shm file os

      of :
          (r : Option ℕ)
          → ((a : ℕ) → r ≡ some a → mapped a x.1 ≡ named file x.1)
          → let y : Result (Option ℕ) × Os = elim r [
            | none ↦ (ok none, x.1)
            | some a ↦ (if true then (ok (some a), x.1) else count_subscriber P a x.1)
          ] in
            AtResult file (y.0, m, y.1)
      of none h = tt
      of (some a) h = h a refl

  create_or_get_topic-AtResult :
      (name : List ℕ) (m : SystemManagerShm) (os : Os)
      → AtResult (shm_name topic_prefix name) (create_or_get_topic P 0 name true m os)
  unfolding create_or_get_topic lock_robust
  create_or_get_topic-AtResult name m os =
      elim (Bool-cases (registered m.topic_count m.topics name)) [
        | inl e ↦ rw e (get_topic-AtResult name m os)
        | inr e ↦ rw e (create_topic-AtResult name m os)
      ]

  -- A publisher's constructor returns the address of the file that its topic's name leads to.
  pub publisher-mapped :
      (name : List ℕ) (m m' : SystemManagerShm) (os os' : Os) (address : ℕ)
      → publisher P 0 name m os ≡ (ok address, m', os')
      → mapped address os' ≡ named (shm_name topic_prefix name) os'
  unfolding publisher
  publisher-mapped name m m' os os' address made =
      let got =
        or_throw-ok P publisher_failed (create_or_get_topic P 0 name true m os) address m' os'
          made in
      subst (AtResult (shm_name topic_prefix name)) got (create_or_get_topic-AtResult name m os)

  -- The constructor of a subscriber leaves the mappings alone.
  pub settled-mapped : (a b : ℕ) (os : Os) → mapped b (settled P a os) ≡ mapped b os
  settled-mapped a b os =
      F.of_unlock a b _
      ∙ F.of_lock a b _
      ∙ F.of_unlock a b _
      ∙ (F.of_store [] a b _ _).0
      ∙ F.of_lock a b os

  -- Two mappings of one file, behind the constructor of a subscriber at one of them: both show the
  -- topic, and what is stored through the other one is seen.
  pub shown_to :
      (a b : ℕ) (os : Os) (t : TopicShm)
      → IsQuiet P
      → mapped a os ≡ mapped b os
      → (load_topic a (settled P a os) ≡ load_topic b (settled P a os))
        × (load_topic a (store_topic b t (settled P a os)) ≡ t)
  shown_to a b os t q e =
      let same : mapped a (settled P a os) ≡ mapped b (settled P a os) =
        settled-mapped a a os ∙ e ∙ sym (settled-mapped a b os) in
      let stored : (c : ℕ)
          → mapped c (store_topic b t (settled P a os)) ≡ mapped c (settled P a os) =
        λ c. (F.of_store [] b c t (settled P a os)).0 in
      (
        F.one_memory a b (settled P a os) same,
        F.one_memory a b _ (stored a ∙ same ∙ sym (stored b)) ∙ q.load-store b t (settled P a os),
      )
