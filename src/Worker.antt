-- ===== src/Worker.antt =====
-- The background threads of Subscriber, ServiceServer, ActionServer and ActionClient: the flag that
-- the loop reads and the `std::thread` that runs it. A call returns, or the program ends in
-- `std::terminate`, as the assignment to a thread that was not joined does, and the destructor of
-- one: that is `none`.
pub mod Life
use com_ipc.Common.{List, [], ◌∷◌, Bool, true, false, Option, some, none, if◌then◌else◌}

pub record Worker : Type 0 where
  pub running : Bool
  pub joinable : Bool

abbrev pub no_thread : Worker
no_thread = record { running = false; joinable = false }

-- `thread_ = std::thread(...)`
abbrev pub launch : Worker → Option Worker
launch w = if w.joinable then none else some (record w { joinable = true })

-- `if (thread_.joinable()) thread_.join()`, which comes back when the loop has seen the flag.
abbrev pub join : Worker → Worker
join w = if w.joinable then record w { joinable = false } else w

-- The destructor of the thread.
abbrev pub destroyed : Worker → Option (Unit {0})
destroyed w = if w.joinable then none else some tt

-- A subscriber's callback and thread.
pub record Async {ℓ} (C : Type ℓ) : Type ℓ where
  pub callback : Option C
  pub worker : Worker

abbrev with_worker {ℓ} : {C : Type ℓ} → Async C → Option Worker → Option (Async C)
with_worker a none = none
with_worker a (some w) = some (record a { worker = w })

-- `registerCallback`
unfoldable pub register_callback {ℓ} : {C : Type ℓ} → C → Async C → Option (Async C)
register_callback c a =
    let a1 = record a { callback = some c } in
    if a.worker.running
    then some a1
    else with_worker a1 (launch (record a.worker { running = true }))

-- The first lines of `Subscriber::~Subscriber`.
unfoldable pub stop_async : Worker → Worker
stop_async w = if w.running then join (record w { running = false }) else w

-- `ServiceServer::startAsync`
unfoldable pub start_async : Worker → Option Worker
start_async w = if w.running then some w else launch (record w { running = true })

-- `ActionServer::start`
unfoldable pub start : Worker → Option Worker
start w = launch (record w { running = true })

-- `ServiceServer::shutdown` and `ActionServer::shutdown`, and the first lines of
-- `ActionClient::~ActionClient` for each of its threads.
unfoldable pub shutdown : Worker → Worker
shutdown w = join (record w { running = false })

-- What the owner of a server calls.
pub data Command : Type 0 where
  starts shuts_down : Command

-- A row of such calls, with what `starts` does.
unfoldable pub run : (Worker → Option Worker) → List Command → Worker → Option Worker
unfolding shutdown
run begin [] w = some w
run begin (starts ∷ cs) w = elim (begin w) [ none ↦ none | some w' ↦ run begin cs w' ]
run begin (shuts_down ∷ cs) w = run begin cs (shutdown w)
