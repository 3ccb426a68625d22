-- ===== src/Action/Opening/Names.antt =====
-- When the constructor of an action server comes back: it subscribes to a topic of its own.
use com_ipc.Common.{
  ℕ, ◌+◌, ◌<◌, ◌≤◌, ◌≡◌, ◌≢◌, ◌∙◌, ap, sym, refl, ◌⊎◌, inl, inr, List, [], ◌∷◌, ◌++◌, some, Result,
  ok, throw, Error, length, length-append, arith,
}
use mathlib.Core.Path.{subst}
use com_ipc.CString.{IsText}
use com_ipc.Posix.{Posix, topic_shm}
use com_ipc.Manager.{SystemManagerShm}
use com_ipc.Manager.Life
use com_ipc.Manager.Segments.{open_file, shm_name, topic_prefix}
use com_ipc.Manager.Segments.Registry
use com_ipc.Subscriber.{Subscriber}
use com_ipc.Endpoint.{Built, built, threw, polling, Turn, publisher, subscriber, service_server}
use com_ipc.Endpoint.Polling.{IsQuiet, IsLive, AreValid, settled, subscriber_long}
use com_ipc.Endpoint.Meeting.{subscriber-publisher}
use com_ipc.Action.Opening.{
  goal_topic, feedback_topic, result_topic, cancel_service, ServerTurns, then_open, then_found,
  publisher_at, action_server, open_server,
}

IsText-append : (xs ys : List ℕ) → IsText xs → IsText ys → IsText (xs ++ ys)
IsText-append [] ys v w = w
IsText-append (x ∷ xs) ys v w = (v.0, IsText-append xs ys v.1 w)

goal_topic-IsText : (name : List ℕ) → IsText name → IsText (goal_topic name)
goal_topic-IsText name v = IsText-append name _ v (omega arith)

length-goal_topic : (name : List ℕ) → length (goal_topic name) ≡ length name + 5
length-goal_topic name = length-append name _

module _ (P : Posix) where
  then_open-Ends {ℓ} :
      {A : Type ℓ} (r : Result ℕ × SystemManagerShm × P.Os) (k : ℕ → Built A)
      → ((a : ℕ) → k a ≢ polling)
      → then_open P r k ≢ polling
  then_open-Ends (ok a, m, os) k h = h a
  then_open-Ends (throw e, m, os) k h = λ p. cc

  built_ends {ℓ} : {A : Type ℓ} {a : A} → built a ≢ polling
  built_ends p = cc

  open_server-ends :
      (name : List ℕ) (e : ServerTurns P) (goal_pub : ℕ) (goal_sub : Subscriber)
      → open_server P name e goal_pub goal_sub ≢ polling
  unfolding open_server
  open_server-ends name e goal_pub goal_sub =
      then_open-Ends (publisher_at P (feedback_topic name) e.feedback) _ (λ a.
        then_open-Ends (publisher_at P (result_topic name) e.result) _ (λ b.
          then_open-Ends
            (service_server P e.cancel.lock (cancel_service name) e.cancel.manager e.cancel.os) _
            (λ c. built_ends)))

  -- The constructor of an action server under a name of 59 characters or more (none of them zero)
  -- throws, or it waits for ever for the goal topic that it has just created, however often it
  -- looks, as long as no shutdown is requested, the manager's lock is had and the registry valid.
  pub action_server_long :
      (name : List ℕ) (e : ServerTurns P)
      → IsText name
      → 58 < length name
      → AreValid P e.goal_turns
      → (action_server P name e ≡ polling) ⊎ ((x : Error) × (action_server P name e ≡ threw x))
  unfolding action_server
  action_server_long name e text long v = go (publisher_at P (goal_topic name) e.goal)
    where
      stuck : subscriber P (goal_topic name) e.goal_turns ≡ polling
      stuck =
          subscriber_long P (goal_topic name) e.goal_turns (goal_topic-IsText name text)
            (omega (arith, length-goal_topic name)) v

      go :
          (r : Result ℕ × SystemManagerShm × P.Os)
          → let b = then_open P r (λ goal_pub.
            then_found P
              (subscriber P (goal_topic name) e.goal_turns)
              (open_server P name e goal_pub)) in
            (b ≡ polling) ⊎ ((x : Error) × (b ≡ threw x))
      go (throw x, m, os) = inr (x, refl)
      go (ok a, m, os) = inl (ap (λ f. then_found P f (open_server P name e a)) stuck)

  -- The constructor of an action server under a name of at most 58 characters (none of them zero)
  -- needs no other process: on a kernel with free mutexes and memory that keeps what is stored, from
  -- a valid registry, it comes back, whatever processes do to the registry meanwhile, if it finds
  -- the locks free and no shutdown at its look for the goal topic, and the kernel opens the file.
  pub action_server_ends :
      (name : List ℕ) (e : ServerTurns P) (t : Turn P) (rest : List (Turn P)) (a : ℕ)
      → (opened : P.Os) → IsQuiet P
      → Registry.IsValid e.goal.manager
      → IsText name
      → length name ≤ 58
      → e.goal.lock ≡ 0
      → e.goal_turns ≡ t ∷ rest
      → IsLive P t
      → Life.Reach P (publisher_at P (goal_topic name) e.goal).1 t.manager
      → open_file P topic_shm (shm_name topic_prefix (goal_topic name)) t.os ≡ (some a, opened)
      → action_server P name e ≢ polling
  unfolding action_server
  action_server_ends name e t rest a opened q v text short free turns live r f =
      go (publisher_at P (goal_topic name) e.goal) refl
    where
      go :
          (p : Result ℕ × SystemManagerShm × P.Os)
          → publisher_at P (goal_topic name) e.goal ≡ p
          → then_open P p (λ goal_pub.
            then_found P
              (subscriber P (goal_topic name) e.goal_turns)
              (open_server P name e goal_pub))
            ≢ polling
      go (throw x, m, os) h = λ p. cc
      go (ok address, m, os) h =
          let made : publisher P 0 (goal_topic name) e.goal.manager e.goal.os
              ≡ (ok address, m, os) =
            subst
              (λ l. publisher P l (goal_topic name) e.goal.manager e.goal.os ≡ (ok address, m, os))
              free h in
          let reached : Life.Reach P m t.manager =
            subst (λ (p : Result ℕ × SystemManagerShm × P.Os). Life.Reach P p.1 t.manager) h r in
          let (found, _) =
            subscriber-publisher P (goal_topic name) e.goal.manager m e.goal.os os address [] t rest
              a opened q v (goal_topic-IsText name text) (omega (arith, length-goal_topic name))
              made tt live reached f in
          let seen : subscriber P (goal_topic name) e.goal_turns ≡ built (_, settled P a opened) =
            ap (subscriber P (goal_topic name)) turns ∙ found in
          subst (λ b. then_found P b (open_server P name e address) ≢ polling) (sym seen)
            (open_server-ends name e address _)
