-- ===== src/Endpoint/Meeting.antt =====
-- The constructors of a publisher and of a subscriber of one topic, and the registry between them.
use com_ipc.Common.{
  ℕ, ◌≤◌, ◌≡◌, ◌≢◌, ap, List, ◌∷◌, ◌++◌, true, Option, some, none, Result, ok, throw, Error, length,
  arith, publisher_failed,
}
use com_ipc.CString.{IsText}
use com_ipc.Posix.{Posix, topic_shm}
use com_ipc.Manager.{SystemManagerShm}
use com_ipc.Manager.Life
use com_ipc.Manager.Growth.{Finds, Reach-Finds}
use com_ipc.Manager.Segments.{create_or_get_topic, open_file, shm_name, topic_prefix}
use com_ipc.Manager.Segments.Registry
use com_ipc.Manager.Segments.Registry.{registered-create_or_get_topic}
use com_ipc.Endpoint.{built, Turn, or_throw, publisher, subscriber}
use com_ipc.Endpoint.Polling.{IsQuiet, IsLive, AreWaiting, joined, settled, subscriber_registered}

module _ (P : Posix) where
  open P use {Os, load_topic}

  pub or_throw-ok :
      (e : Error) (x : Result (Option ℕ) × SystemManagerShm × Os) (a : ℕ) (m : SystemManagerShm)
      (os : Os)
      → or_throw P e x ≡ (ok a, m, os)
      → x ≡ (ok (some a), m, os)
  or_throw-ok e (ok none, m', os') a m os h = cc
  or_throw-ok e (ok (some a'), m', os') a m os h = ground arith
  or_throw-ok e (throw e', m', os') a m os h = cc

  -- The constructor of a publisher leaves its topic registered.
  publisher-Finds :
      (name : List ℕ) (m m' : SystemManagerShm) (os os' : Os) (address : ℕ)
      → Registry.IsValid m
      → IsText name
      → length name ≤ 63
      → publisher P 0 name m os ≡ (ok address, m', os')
      → Finds name m'
  unfolding publisher
  publisher-Finds name m m' os os' address v t fits h =
      let other : List ℕ = b'x' ∷ name in
      let ne : other ≢ name = λ e. ground (arith, ap length e) in
      let got =
        or_throw-ok publisher_failed (create_or_get_topic P 0 name true m os) address m' os' h in
      (registered-create_or_get_topic P name other address os os' v t (omega arith, t) fits ne
        got).0

  -- On a kernel with free mutexes and memory that keeps what is stored, once the constructor of a
  -- publisher has returned, from a valid registry and under a name of at most 63 characters (none of
  -- them zero), and whatever any processes then do to the registry, the constructor of a subscriber
  -- of that name returns at the first look at it, if the locks are had, the kernel opens the file and
  -- no shutdown is requested; the looks before that found no such topic. It is then at the number
  -- that the topic has, and the topic counts one subscriber more and is else unchanged.
  pub subscriber-publisher :
      (name : List ℕ) (m m' : SystemManagerShm) (os os' : Os) (address : ℕ)
      → (ts : List (Turn P)) (t : Turn P) (rest : List (Turn P)) (a : ℕ) (opened : Os) → IsQuiet P
      → Registry.IsValid m
      → IsText name
      → length name ≤ 63
      → publisher P 0 name m os ≡ (ok address, m', os')
      → AreWaiting P name ts
      → IsLive P t
      → Life.Reach P m' t.manager
      → open_file P topic_shm (shm_name topic_prefix name) t.os ≡ (some a, opened)
      → (subscriber P name (ts ++ t ∷ rest)
          ≡ built
              (record { mapped = true; last_seq = (load_topic a opened).seq }, settled P a opened))
        × (load_topic a (settled P a opened) ≡ joined P (load_topic a opened))
  subscriber-publisher name m m' os os' address ts t rest a opened q v text fits made w live r e =
      let found = publisher-Finds name m m' os os' address v text fits made in
      subscriber_registered P q name ts t rest a opened w live
        (Reach-Finds P name m' t.manager r found) e
