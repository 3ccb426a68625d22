-- ===== src/Worker/Life.antt =====
-- Rows of starts and shutdowns of a server.
use com_ipc.Common.{◌≡◌, refl, ◌↔◌, List, [], ◌∷◌, Bool, true, false, Option, some, none}
use com_ipc.Worker.{
  Worker, no_thread, destroyed, start_async, start, shutdown, Command, starts, shuts_down, run,
}

-- Is the last of the calls a start?
abbrev pub ends_started : Bool → List Command → Bool
ends_started b [] = b
ends_started b (starts ∷ cs) = ends_started true cs
ends_started b (shuts_down ∷ cs) = ends_started false cs

-- A row of calls of `startAsync` and `shutdown` never ends the program, and leaves a thread exactly
-- if the last of them was a start; and then the destructor, which shuts down, leaves none.
pub run-start_async :
    (cs : List Command)
    → (w : Worker) × (run start_async cs no_thread ≡ some w)
      × (w.running ≡ ends_started false cs)
      × (w.joinable ≡ ends_started false cs)
      × (destroyed (shutdown w) ≡ some tt)
unfolding run start_async shutdown
run-start_async cs = go false cs
  where
    go :
        (b : Bool) (cs : List Command)
        → (w : Worker) × (run start_async cs (record { running = b; joinable = b }) ≡ some w)
          × (w.running ≡ ends_started b cs)
          × (w.joinable ≡ ends_started b cs)
          × (destroyed (shutdown w) ≡ some tt)
    go true [] = (record { running = true; joinable = true }, refl, refl, refl, refl)
    go false [] = (record { running = false; joinable = false }, refl, refl, refl, refl)
    go true (starts ∷ cs) = go true cs
    go false (starts ∷ cs) = go true cs
    go true (shuts_down ∷ cs) = go false cs
    go false (shuts_down ∷ cs) = go false cs

-- Is there a start behind a start, with no shutdown between them?
abbrev pub has_double : List Command → Bool
has_double [] = false
has_double (shuts_down ∷ cs) = has_double cs
has_double (starts ∷ []) = false
has_double (starts ∷ shuts_down ∷ cs) = has_double (shuts_down ∷ cs)
has_double (starts ∷ starts ∷ cs) = true

-- The outcome of a row, by the answer to that.
abbrev Fits : Bool → Option Worker → Type 0
Fits b none = b ≡ true
Fits b (some w) = b ≡ false

run-Fits : (cs : List Command) → Fits (has_double cs) (run start cs no_thread)
unfolding run start shutdown
run-Fits [] = refl
run-Fits (shuts_down ∷ cs) = run-Fits cs
run-Fits (starts ∷ []) = refl
run-Fits (starts ∷ shuts_down ∷ cs) = run-Fits cs
run-Fits (starts ∷ starts ∷ cs) = refl

Fits-none : (b : Bool) (o : Option Worker) → Fits b o → (o ≡ none) ↔ (b ≡ true)
Fits-none b none f = (λ _. f, λ _. refl)
Fits-none b (some w) f = (λ e. cc, λ e. cc)

-- A row of calls of `ActionServer::start` and `shutdown` ends the program exactly if there is a
-- start behind a start in it, with no shutdown between them.
pub run-start : (cs : List Command) → (run start cs no_thread ≡ none) ↔ (has_double cs ≡ true)
run-start cs = Fits-none (has_double cs) (run start cs no_thread) (run-Fits cs)
