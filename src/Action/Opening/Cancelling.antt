-- ===== src/Action/Opening/Cancelling.antt =====
-- The cancel service of an action server: what its channel sees, from the server's constructor on.
use com_ipc.Common.{
  ℕ, sym, ◌≡◌, refl, ap, ◌∙◌, List, [], ◌∷◌, Bool, true, false, Option, some, none, Result, ok,
  throw, Bool-cases, inl, inr,
}
use mathlib.Core.Path.{subst}
use com_ipc.Common.Bytes.{le_bytes}
use com_ipc.Types.{ServiceShm}
use com_ipc.Posix.{Posix}
use com_ipc.Manager.{SystemManagerShm}
use com_ipc.Service.{
  Wake, clear, post, ServiceClient, CallEnd, call, ServiceCallback, serve, replied, refused,
  blocked,
}
use com_ipc.Service.Silence.{NoResponse, has_reply, call_mute}
use com_ipc.Endpoint.{Built, built, unassigned, threw, polling, subscriber, service_server}
use com_ipc.Worker.{Worker, no_thread}
use com_ipc.Action.{cancel_goal, is_success}
use com_ipc.Action.Opening.{
  ServerParts, start_server, shut_down_server, ServerTurns, action_server, open_server, then_open,
  then_found, publisher_at, goal_topic, feedback_topic, result_topic, cancel_service,
}

-- What happens to a server and to the channel of its cancel service: the owner starts it and shuts it
-- down, clients ask, take responses and give up, and a thread of the service serves with any
-- callback, if it runs.
pub data Event : ServerParts × ServiceShm → ServerParts × ServiceShm → Type 0 where
  starts : {o o' : ServerParts} {s : ServiceShm} → start_server o ≡ some o' → Event (o, s) (o', s)
  shuts_down : {o : ServerParts} {s : ServiceShm} → Event (o, s) (shut_down_server o, s)
  asks :
      (pid id : ℕ) (bytes : List ℕ) {o : ServerParts} {s : ServiceShm}
      → Event (o, s) (o, post pid id bytes s)
  takes : {o : ServerParts} {s : ServiceShm} → Event (o, s) (o, record s { has_response = false })
  gives_up : {o : ServerParts} {s : ServiceShm} → Event (o, s) (o, clear s)
  serves :
      (cb : ServiceCallback) (before : ServiceShm) {o : ServerParts} {s : ServiceShm}
      → o.cancelling.running ≡ true
      → Event (o, s) (o, serve cb before s)

pub data Events (x : ServerParts × ServiceShm) : ServerParts × ServiceShm → Type 0 where
  nothing : Events x x
  then_event : {y z : ServerParts × ServiceShm} → Events x y → Event y z → Events x z

-- The service has no thread, and the channel no response.
abbrev IsMute : ServerParts × ServiceShm → Type 0
IsMute (o, s) = (o.cancelling.running ≡ false) × (s.has_response ≡ false)

start_server-cancelling :
    (o o' : ServerParts) → start_server o ≡ some o' → o'.cancelling ≡ o.cancelling
unfolding start_server com_ipc.Worker.start
start_server-cancelling o o' e = elim (Bool-cases o.process.joinable) [
  | inl j ↦ cc (rw j at e)
  | inr j ↦ sym (ap cancelling_of (rw j at e))
]
  where
    cancelling_of : Option ServerParts → Worker
    cancelling_of none = o.cancelling
    cancelling_of (some p) = p.cancelling

Event-IsMute : {x y : ServerParts × ServiceShm} → Event x y → IsMute x → IsMute y
unfolding start_server shut_down_server
Event-IsMute (starts {o} {o'} e) (a, b) =
    (ap (λ (w : Worker). w.running) (start_server-cancelling o o' e) ∙ a, b)
Event-IsMute shuts_down v = v
Event-IsMute (asks pid id bytes) (a, b) = (a, refl)
Event-IsMute takes (a, b) = (a, refl)
Event-IsMute gives_up (a, b) = (a, refl)
Event-IsMute (serves cb before r) (a, b) = cc

Events-IsMute : {x y : ServerParts × ServiceShm} → Events x y → IsMute x → IsMute y
Events-IsMute nothing v = v
Events-IsMute (then_event es e) v = Event-IsMute e (Events-IsMute es v)

is_success-has_reply : (r : CallEnd) → has_reply r ≡ false → is_success r ≡ false
unfolding is_success
is_success-has_reply (replied bytes s) h = cc
is_success-has_reply (refused s) h = refl
is_success-has_reply (CallEnd.threw e) h = refl
is_success-has_reply blocked h = refl

-- The constructor begins no thread of the service.
abbrev IfBuilt {ℓ} : {A : Type ℓ} → (A → Type 0) → Built A → Type 0
IfBuilt Q (built a) = Q a
IfBuilt Q unassigned = Unit {0}
IfBuilt Q (threw e) = Unit {0}
IfBuilt Q polling = Unit {0}

then_open-IfBuilt {ℓ} :
    {A : Type ℓ} (P : Posix) (Q : A → Type 0) (r : Result ℕ × SystemManagerShm × P.Os)
    → (k : ℕ → Built A) → ((a : ℕ) → IfBuilt Q (k a))
    → IfBuilt Q (then_open P r k)
then_open-IfBuilt P Q (ok a, m, os) k h = h a
then_open-IfBuilt P Q (throw e, m, os) k h = tt

then_found-IfBuilt {ℓ κ} :
    {A : Type ℓ} {B : Type κ} (P : Posix) (Q : B → Type 0) (b : Built (A × P.Os)) (k : A → Built B)
    → ((a : A) → IfBuilt Q (k a))
    → IfBuilt Q (then_found P b k)
then_found-IfBuilt P Q (built (a, os)) k h = h a
then_found-IfBuilt P Q unassigned k h = tt
then_found-IfBuilt P Q (threw e) k h = tt
then_found-IfBuilt P Q polling k h = tt

-- Its service has no thread.
abbrev Unserved : ServerParts → Type 0
Unserved o = o.cancelling.running ≡ false

module _ (P : Posix) where
  action_server-Unserved :
      (name : List ℕ) (e : ServerTurns P) → IfBuilt Unserved (action_server P name e)
  unfolding action_server open_server
  action_server-Unserved name e =
      then_open-IfBuilt P Unserved (publisher_at P (goal_topic name) e.goal) _ (λ a.
        then_found-IfBuilt P Unserved (subscriber P (goal_topic name) e.goal_turns) _ (λ b.
          then_open-IfBuilt P Unserved (publisher_at P (feedback_topic name) e.feedback) _ (λ c.
            then_open-IfBuilt P Unserved (publisher_at P (result_topic name) e.result) _ (λ d.
              then_open-IfBuilt P Unserved
                (service_server P e.cancel.lock (cancel_service name) e.cancel.manager e.cancel.os)
                _ (λ f. refl)))))

  -- A channel as it can become after the constructor, from one without a response.
  abbrev pub Becomes : ServerParts → ServiceShm → ServiceShm → Type 0
  Becomes o s t = (o' : ServerParts) × Events (o, s) (o', t)

  abbrev pub AllBecome : ServerParts → ServiceShm → List Wake → Type 0
  AllBecome o s [] = Unit {0}
  AllBecome o s (w ∷ ws) = Becomes o s w.shm × AllBecome o s ws

  AllBecome-NoResponse :
      (o : ServerParts) (s : ServiceShm) (ws : List Wake)
      → IsMute (o, s)
      → AllBecome o s ws
      → NoResponse ws
  AllBecome-NoResponse o s [] m v = tt
  AllBecome-NoResponse o s (w ∷ ws) m ((_, es), v) =
      ((Events-IsMute es m).1, AllBecome-NoResponse o s ws m v)

  -- `cancelGoal` never succeeds: from the constructor of an action server on, whose cancel service
  -- has a channel without a response, and whatever its owner, its clients and the threads of its
  -- service do, no call of that service returns true.
  pub cancel_goal_unserved :
      (name : List ℕ) (e : ServerTurns P) (o : ServerParts) (s : ServiceShm)
      → (pid id : ℕ) (c : ServiceClient) (lock : ℕ) (shutdown : Bool) (now : ServiceShm)
      → (ws : List Wake) → action_server P name e ≡ built o
      → s.has_response ≡ false
      → AllBecome o s ws
      → let (_, ended, success) = cancel_goal pid id c lock shutdown now ws in
        (has_reply ended ≡ false) × (success ≡ false)
  unfolding cancel_goal is_success
  cancel_goal_unserved name e o s pid id c lock shutdown now ws made h v =
      let idle : Unserved o = subst (IfBuilt Unserved) made (action_server-Unserved name e) in
      let quiet : NoResponse ws = AllBecome-NoResponse o s ws (idle, h) v in
      let none_back = call_mute pid (le_bytes 4 id) 8 c lock shutdown now ws quiet in
      (
        none_back,
        is_success-has_reply (call pid (le_bytes 4 id) 8 c lock shutdown now ws).1 none_back,
      )
