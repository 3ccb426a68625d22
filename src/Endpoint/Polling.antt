-- ===== src/Endpoint/Polling.antt =====
-- When the constructors that poll return (Endpoint).
use com_ipc.Common.{
  ℕ, ◌+◌, ◌<◌, ◌≡◌, refl, ◌∙◌, inl, List, [], ◌∷◌, ◌++◌, Bool, true, false, some, none, ok,
  lock_robust, length, arith,
}
use com_ipc.CString.{IsText}
use com_ipc.Types.{TopicShm}
use com_ipc.Posix.{Posix, topic_shm}
use com_ipc.Manager.{SystemManagerShm, registered}
use com_ipc.Manager.Segments.{
  create_or_get_topic, get_topic, open_file, count_subscriber, shm_name, topic_prefix,
}
use com_ipc.Manager.Segments.Registry
use com_ipc.Manager.Segments.Registry.{create_or_get_topic_absent, create_or_get_topic_long}
use com_ipc.Subscriber.{attach}
use com_ipc.Endpoint.{built, polling, Turn, poll, find_topic, subscriber}

module _ (P : Posix) where
  open P use {Os, mutex_lock, mutex_unlock, load_topic, store_topic}

  -- A mutex that nobody holds is had at once, and locking and storing change a topic as they should.
  pub record IsQuiet : Type 0 where
    pub lock_free : (a : ℕ) (os : Os) → (mutex_lock a os).0 ≡ 0
    pub load-lock : (a : ℕ) (os : Os) → load_topic a (mutex_lock a os).1 ≡ load_topic a os
    pub load-unlock : (a : ℕ) (os : Os) → load_topic a (mutex_unlock a os) ≡ load_topic a os
    pub load-store : (a : ℕ) (t : TopicShm) (os : Os) → load_topic a (store_topic a t os) ≡ t

  -- No shutdown is requested and the manager's mutex is had.
  abbrev pub IsLive : Turn P → Type 0
  IsLive t = (t.shutdown ≡ false) × (t.lock ≡ 0)

  -- The topic is registered, or it is not yet.
  abbrev pub Finds : List ℕ → Bool → Turn P → Type 0
  Finds name b t = registered t.manager.topic_count t.manager.topics name ≡ b

  abbrev pub AreWaiting : List ℕ → List (Turn P) → Type 0
  AreWaiting name [] = Unit {0}
  AreWaiting name (t ∷ ts) = IsLive t × Finds name false t × AreWaiting name ts

  -- One more subscriber.
  abbrev pub joined : TopicShm → TopicShm
  joined t = record t { active_subscribers = t.active_subscribers + 1 }

  find_topic_absent :
      (name : List ℕ) (t : Turn P)
      → IsLive t
      → Finds name false t
      → find_topic P name t ≡ (ok none, t.manager, t.os)
  find_topic_absent name t v f =
      rw (v.1) (create_or_get_topic_absent P name false t.manager t.os f (inl refl))

  -- The rounds that do not find the topic are passed over.
  poll_waits :
      (name : List ℕ) (tried : Bool) (ts : List (Turn P)) (t : Turn P) (rest : List (Turn P))
      → {a : ℕ} {m : SystemManagerShm} {os : Os} → AreWaiting name ts
      → t.shutdown ≡ false
      → find_topic P name t ≡ (ok (some a), m, os)
      → poll P (find_topic P name) tried (ts ++ t ∷ rest) ≡ built (some a, os)
  unfolding poll
  poll_waits name tried [] t rest w v e = rw (v, e)
  poll_waits name tried (t' ∷ ts) t rest w v e =
      rw (w.0.0, find_topic_absent name t' w.0 w.1) (poll_waits name true ts t rest w.2 v e)

  -- The kernel behind `createOrGetTopic` of a subscriber, for the segment at `a`.
  abbrev pub counted : ℕ → Os → Os
  counted a os =
      let os1 = (mutex_lock a os).1 in
      mutex_unlock a (store_topic a (joined (load_topic a os1)) os1)

  -- The kernel behind the whole constructor.
  abbrev pub settled : ℕ → Os → Os
  settled a os = let os1 = counted a os in mutex_unlock a (mutex_lock a os1).1

  module _ (q : IsQuiet) where
    count_subscriber_lem : (a : ℕ) (os : Os) → count_subscriber P a os ≡ (ok (some a), counted a os)
    unfolding count_subscriber lock_robust
    count_subscriber_lem a os = rw (q.lock_free a os, count_subscriber)

    load-counted : (a : ℕ) (os : Os) → load_topic a (counted a os) ≡ joined (load_topic a os)
    load-counted a os = rw (
      q.load-unlock a
          (store_topic a (joined (load_topic a (mutex_lock a os).1)) (mutex_lock a os).1),
      q.load-store a (joined (load_topic a (mutex_lock a os).1)) (mutex_lock a os).1,
      q.load-lock a os,
    )

    find_topic_present :
        (name : List ℕ) (t : Turn P) (a : ℕ) (os : Os)
        → IsLive t
        → Finds name true t
        → open_file P topic_shm (shm_name topic_prefix name) t.os ≡ (some a, os)
        → find_topic P name t ≡ (ok (some a), t.manager, counted a os)
    unfolding create_or_get_topic get_topic lock_robust
    find_topic_present name t a os v f e = ground (arith, e, f, v, count_subscriber_lem a os)

    -- A subscriber's constructor waits as long as its topic is not registered, and returns at the
    -- first round that finds it registered and can open its file, whatever follows. The cursor is
    -- then at the number of the topic, which counts one subscriber more and is else as before.
    pub subscriber_registered :
        (name : List ℕ) (ts : List (Turn P)) (t : Turn P) (rest : List (Turn P)) (a : ℕ) (os : Os)
        → AreWaiting name ts
        → IsLive t
        → Finds name true t
        → open_file P topic_shm (shm_name topic_prefix name) t.os ≡ (some a, os)
        → (subscriber P name (ts ++ t ∷ rest)
            ≡ built (record { mapped = true; last_seq = (load_topic a os).seq }, settled a os))
          × (load_topic a (settled a os) ≡ joined (load_topic a os))
    unfolding subscriber attach lock_robust
    subscriber_registered name ts t rest a os w v f e =
        let found = poll_waits name false ts t rest w v.0 (find_topic_present name t a os v f e) in
        let os2 = (mutex_lock a (counted a os)).1 in
        let same = q.load-lock a (counted a os) ∙ load-counted a os in
        (rw (found, q.lock_free a (counted a os), same), q.load-unlock a os2 ∙ same)

  -- Each round finds a valid registry.
  abbrev pub AreValid : List (Turn P) → Type 0
  AreValid [] = Unit {0}
  AreValid (t ∷ ts) = IsLive t × Registry.IsValid t.manager × AreValid ts

  poll_long :
      (name : List ℕ) (tried : Bool) (ts : List (Turn P))
      → IsText name
      → 63 < length name
      → AreValid ts
      → poll P (find_topic P name) tried ts ≡ polling
  unfolding poll
  poll_long name tried [] text long v = refl
  poll_long name tried (t ∷ ts) text long v =
      let absent : find_topic P name t ≡ (ok none, t.manager, t.os) =
        rw (v.0.1) (create_or_get_topic_long P name t.manager t.os v.1 text long) in
      rw (v.0.0, absent) (poll_long name true ts text long v.2)

  -- A subscriber's constructor that gets the manager's lock and finds a valid registry at each look
  -- never returns for a name of 64 characters or more (none of them zero), however often it looks and
  -- whatever publishers have registered, as long as no shutdown is requested.
  pub subscriber_long :
      (name : List ℕ) (ts : List (Turn P))
      → IsText name
      → 63 < length name
      → AreValid ts
      → subscriber P name ts ≡ polling
  unfolding subscriber
  subscriber_long name ts text long v = rw (poll_long name false ts text long v)
