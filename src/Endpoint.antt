-- ===== src/Endpoint.antt =====
-- How the four endpoints come to be: the constructors of Publisher, Subscriber, ServiceClient and
-- ServiceServer, over any kernel. A constructor that polls runs beside other processes: a turn is
-- what one round of it finds, the manager's record and the kernel's state included.
pub mod Polling
pub mod Meeting
pub mod Files
pub mod FirstMessage
pub mod FirstCall
use com_ipc.Common.{
  ℕ, List, [], ◌∷◌, Bool, true, false, Option, some, none, Result, ok, throw, Error,
  publisher_failed, server_failed, lock_robust, if◌then◌else◌,
}
use com_ipc.Posix.{Posix, topic_shm, service_shm}
use com_ipc.Manager.{SystemManagerShm}
use com_ipc.Manager.Segments.{create_or_get_topic, create_or_get_service}
use com_ipc.Subscriber.{Subscriber, attach, detach}

-- A constructor that polls: it returns, or it leaves the loop before the pointer has a value, throws,
-- or has not returned yet.
pub data Built {ℓ} (A : Type ℓ) : Type ℓ where
  built : A → Built A
  unassigned : Built A
  threw : Error → Built A
  polling : Built A

module _ (P : Posix) where
  open P use {Os, mutex_lock, mutex_unlock, load_topic, store_topic, munmap}

  -- What a round finds: the shutdown flag, what locking the manager returns, its record, the kernel.
  pub record Turn : Type 0 where
    pub shutdown : Bool
    pub lock : ℕ
    pub manager : SystemManagerShm
    pub os : Os

  -- The null pointer is an error.
  abbrev pub or_throw :
      Error → Result (Option ℕ) × SystemManagerShm × Os → Result ℕ × SystemManagerShm × Os
  or_throw failed (ok none, m, os) = (throw failed, m, os)
  or_throw failed (ok (some address), m, os) = (ok address, m, os)
  or_throw failed (throw e, m, os) = (throw e, m, os)

  -- `Publisher::Publisher` and `ServiceServer::ServiceServer`: the address of the segment.
  unfoldable pub publisher :
      (lock : ℕ) → List ℕ → SystemManagerShm → Os → Result ℕ × SystemManagerShm × Os
  unfolding create_or_get_topic
  publisher lock topic_name m os =
      or_throw publisher_failed (create_or_get_topic P lock topic_name true m os)

  unfoldable pub service_server :
      (lock : ℕ) → List ℕ → SystemManagerShm → Os → Result ℕ × SystemManagerShm × Os
  unfolding create_or_get_service
  service_server lock service_name m os =
      or_throw server_failed (create_or_get_service P lock service_name true m os)

  -- A round of the polling loop for the outcome of its call, before the rest of the loop.
  abbrev pub after_attempt :
      Built (Option ℕ × Os) → Result (Option ℕ) × SystemManagerShm × Os → Built (Option ℕ × Os)
  after_attempt rest (ok none, m, os) = rest
  after_attempt rest (ok (some address), m, os) = built (some address, os)
  after_attempt rest (throw e, m, os) = threw e

  -- `while (!g_shutdown_requested)`: `none` is the null pointer of a round that found nothing.
  unfoldable pub poll :
      (Turn → Result (Option ℕ) × SystemManagerShm × Os)
      → (tried : Bool) → List Turn
      → Built (Option ℕ × Os)
  poll attempt tried [] = polling
  poll attempt tried (t ∷ ts) =
      let rest = poll attempt true ts in
      if t.shutdown
      then (if tried then built (none, t.os) else unassigned)
      else after_attempt rest (attempt t)

  abbrev pub find_topic : List ℕ → Turn → Result (Option ℕ) × SystemManagerShm × Os
  find_topic name t = create_or_get_topic P t.lock name false t.manager t.os

  abbrev pub find_service : List ℕ → Turn → Result (Option ℕ) × SystemManagerShm × Os
  find_service name t = create_or_get_service P t.lock name false t.manager t.os

  -- The constructor of Subscriber under the topic's mutex.
  abbrev pub attached : ℕ → Os → Result Subscriber → Built (Subscriber × Os)
  attached address os (ok s) = built (s, mutex_unlock address os)
  attached address os (throw e) = threw e

  abbrev pub attach_at : Built (Option ℕ × Os) → Built (Subscriber × Os)
  attach_at (built (some address, os)) =
      let (ret, os1) = mutex_lock address os in
      attached address os1 (attach ret (load_topic address os1))
  attach_at (built (none, os)) = built (record { mapped = false; last_seq = 0 }, os)
  attach_at unassigned = unassigned
  attach_at (threw e) = threw e
  attach_at polling = polling

  -- `Subscriber::Subscriber`
  unfoldable pub subscriber : List ℕ → List Turn → Built (Subscriber × Os)
  unfolding poll attach
  subscriber topic_name turns = attach_at (poll (find_topic topic_name) false turns)

  -- `ServiceClient::ServiceClient`; the lines that it prints are left out.
  unfoldable pub service_client : List ℕ → List Turn → Built (Option ℕ × Os)
  unfolding poll
  service_client service_name turns = poll (find_service service_name) false turns

  -- The destructor of a subscriber that is mapped.
  abbrev pub detached : ℕ → Os → Result Bool → Result (Unit {0}) × Os
  detached address os (ok _) =
      let left = store_topic address (detach (load_topic address os)) os in
      (ok tt, munmap address topic_shm (mutex_unlock address left))
  detached address os (throw e) = (throw e, os)

  -- `Subscriber::~Subscriber`, once the asynchronous thread is joined.
  unfoldable pub leave : Option ℕ → Os → Result (Unit {0}) × Os
  unfolding detach lock_robust
  leave none os = (ok tt, os)
  leave (some address) os =
      let (ret, os1) = mutex_lock address os in detached address os1 (lock_robust ret)

  -- `Publisher::~Publisher`, and the destructors of the two ends of a service.
  abbrev pub close_publisher : Option ℕ → Os → Os
  close_publisher none os = os
  close_publisher (some address) os = munmap address topic_shm os

  abbrev pub close_service : Option ℕ → Os → Os
  close_service none os = os
  close_service (some address) os = munmap address service_shm os
