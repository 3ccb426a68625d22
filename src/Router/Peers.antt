-- ===== src/Router/Peers.antt =====
-- Peers that send what they like to do_import of tools/com_router.cpp.
use com_ipc.Common.{
  ℕ, ◌-◌, ◌≤◌, ◌≡◌, refl, sym, inl, inr, List, [], ◌∷◌, Bool, true, false, if◌then◌else◌, ◌⊎◌, ◌++◌,
  replicate, Result, ok, throw, length, take, length-take, length-append, Bool-cases, arith, ◌==◌,
  drop,
}
use mathlib.Core.Path.{subst}
use com_ipc.Common.Bytes.{Memory, of_le}
use com_ipc.CString.{same_chars}
use com_ipc.Types.{msg_custom}
use com_ipc.Pool.{write}
use com_ipc.Topic.{Shm, Call, loan_raw, publish_loaned}
use com_ipc.Traffic.Calls.{Inside, IsSafe}
use com_ipc.Router.{Round, Received, Outcome, returned, blocked, recv_all}
use com_ipc.Router.Gateway.{
  ImportRound, Stop, Import, invalid_magic, no_topic, importing, import_payload, import_frame,
  import_magic, import_size, import_loop, after_name, after_length, after_magic, do_import,
}
use com_ipc.Router.Guard.{IsGuarded, write-IsGuarded, publish_loaned-IsGuarded, loan_raw-IsGuarded}

-- What is stored is no longer than what was asked for.
recv_all-length :
    (rounds : List Round) (inbox : List ℕ) (size : ℕ)
    → length (recv_all rounds inbox size).stored ≤ size
unfolding recv_all
recv_all-length [] inbox size = omega arith
recv_all-length (r ∷ rounds) inbox size =
    let got : List ℕ = take size (take r.chunk inbox) in
    let rest = recv_all rounds (drop (length got) inbox) (size - length got) in
    ground (
      arith,
      length-take size (take r.chunk inbox),
      length-append got rest.stored,
      recv_all-length rounds (drop (length got) inbox) (size - length got),
    )

-- The rest of a loop.
abbrev Keeps : Memory → (List Round → List ℕ → Shm → Stop × Shm) → Type 0
Keeps m rest =
    (rounds : List Round) (inbox : List ℕ) (s : Shm)
    → IsGuarded m s
    → IsGuarded m (rest rounds inbox s).1

import_payload-IsGuarded :
    {m : Memory} {s : Shm} (c : Call) (size ptr : ℕ)
    → (rest : List Round → List ℕ → Shm → Stop × Shm) (got : Received) → Keeps m rest
    → Inside ptr size
    → length got.stored ≤ size
    → IsGuarded m s
    → IsGuarded m (import_payload c size ptr rest got s).1
unfolding import_payload
import_payload-IsGuarded {m} {s} c size ptr rest got k i h v =
    let fv = write-IsGuarded ptr size got.stored i h v in
    let pv = publish_loaned-IsGuarded c ptr size msg_custom i fv in
    go got.outcome (publish_loaned c ptr size msg_custom filled) fv pv
  where
    filled : Shm
    filled = record s { pool = write ptr got.stored s.pool }

    go :
        (o : Outcome) (d : Result Bool × Shm)
        → IsGuarded m filled
        → IsGuarded m d.1
        → IsGuarded m (
            (elim o as (λ _. Stop × Shm) [
              | returned false ↦ (Stop.failed_call, filled)
              | blocked ↦ (Stop.in_call, filled)
              | returned true ↦ (elim d.0 as (λ _. Stop × Shm) [
                | throw e ↦ (Stop.threw e, d.1)
                | ok _ ↦ rest got.rounds got.inbox d.1
              ])
            ]).1)
    go (returned false) d fv pv = fv
    go blocked d fv pv = fv
    go (returned true) (throw e, t) fv pv = pv
    go (returned true) (ok b, t) fv pv = k got.rounds got.inbox t pv

import_frame-IsGuarded :
    {m : Memory} {s : Shm} (c : Call) (size : ℕ)
    → (rest : List Round → List ℕ → Shm → Stop × Shm) (rounds : List Round) (inbox : List ℕ)
    → Keeps m rest
    → IsGuarded m s
    → IsGuarded m (import_frame c size rest rounds inbox s).1
unfolding import_frame
import_frame-IsGuarded {m} {s} c size rest rounds inbox k v =
    let (w, i) = loan_raw-IsGuarded c size v in go (loan_raw c size s) w i
  where
    go :
        (d : Result ℕ × Shm)
        → IsGuarded m d.1
        → ((ptr : ℕ) → d.0 ≡ ok ptr → Inside ptr size)
        → IsGuarded m (
            (elim d.0 as (λ _. Stop × Shm) [
              | throw e ↦ (Stop.threw e, d.1)
              | ok ptr ↦ import_payload c size ptr rest (recv_all rounds inbox size) d.1
            ]).1)
    go (throw e, t) w i = w
    go (ok ptr, t) w i =
        import_payload-IsGuarded c size ptr rest (recv_all rounds inbox size) k (i ptr refl)
          (recv_all-length rounds inbox size) w

import_size-IsGuarded :
    {m : Memory} {s : Shm} (c : Call)
    → (rest : List Round → List ℕ → Shm → Stop × Shm) (got : Received) → Keeps m rest
    → IsGuarded m s
    → IsGuarded m (import_size c rest got s).1
unfolding import_size
import_size-IsGuarded {m} {s} c rest got k v = go got.outcome (Bool-cases (length got.stored == 8))
  where
    frame : Stop × Shm
    frame = import_frame c (of_le got.stored) rest got.rounds got.inbox s

    Whole : Bool → Type 0
    Whole b = IsGuarded m ((if b then frame else (Stop.unspecified, s)).1)

    go :
        (o : Outcome)
        → ((length got.stored == 8) ≡ true) ⊎ ((length got.stored == 8) ≡ false)
        → IsGuarded m (
            (elim o as (λ _. Stop × Shm) [
              | returned false ↦ (Stop.failed_call, s)
              | blocked ↦ (Stop.in_call, s)
              | returned true ↦ (if length got.stored == 8 then frame else (Stop.unspecified, s))
            ]).1)
    go (returned false) b = v
    go blocked b = v
    go (returned true) (inl e) =
        subst Whole (sym e)
          (import_frame-IsGuarded c (of_le got.stored) rest got.rounds got.inbox k v)
    go (returned true) (inr e) = subst Whole (sym e) v

import_loop-IsGuarded : {m : Memory} (rs : List ImportRound) → Keeps m (import_loop rs)
unfolding import_loop
import_loop-IsGuarded [] rounds inbox s v = v
import_loop-IsGuarded (r ∷ rs) rounds inbox s v = elim (Bool-cases r.running) [
  | inl e ↦ rw e (
      import_size-IsGuarded r.call (import_loop rs) (recv_all rounds inbox 8)
        (import_loop-IsGuarded rs) v)
  | inr e ↦ rw e v
]

-- The shared memory of an import, where there is one.
abbrev pub ImportIsGuarded : Memory → Import → Type 0
ImportIsGuarded m invalid_magic = Unit {0}
ImportIsGuarded m (no_topic stop) = Unit {0}
ImportIsGuarded m (importing topic (stop, s)) = IsGuarded m s

-- Whatever a peer sends, however the network cuts it, whenever it closes, and in every outcome of
-- the locks: `do_import` leaves safe memory safe, so that no size that comes over the network makes
-- a subscriber read outside the pool, and no byte behind the data area of the pool changes.
pub do_import-IsGuarded :
    (rs : List ImportRound) (rounds : List Round) (inbox : List ℕ) (s : Shm)
    → IsSafe s
    → ImportIsGuarded s.pool.bytes (do_import rs rounds inbox s)
unfolding do_import after_magic after_length
do_import-IsGuarded rs rounds inbox s v = magic_read (recv_all rounds inbox 4)
  where
    m : Memory
    m = s.pool.bytes

    start : IsGuarded m s
    start = record { safe = v; behind = λ a p. refl }

    name_read : (size : ℕ) (name : Received) → ImportIsGuarded m (after_name rs size name s)
    name_read size name = go name.outcome
      where
        go :
            (o : Outcome)
            → ImportIsGuarded m (elim o as (λ _. Import) [
              | returned _ ↦
                  importing
                    (name.stored ++ replicate (size - length name.stored) 0)
                    (import_loop rs name.rounds name.inbox s)
              | blocked ↦ no_topic Stop.in_call
            ])
        go (returned b) = import_loop-IsGuarded rs name.rounds name.inbox s start
        go blocked = tt

    no_length :
        (o : Outcome)
        → ImportIsGuarded m (elim o as (λ _. Import) [
          | returned _ ↦ no_topic Stop.unspecified
          | blocked ↦ no_topic Stop.in_call
        ])
    no_length (returned b) = tt
    no_length blocked = tt

    length_read : (n : Received) → ImportIsGuarded m (after_length rs n s)
    length_read n = elim (Bool-cases (length n.stored == 8)) [
      | inl e ↦ rw e (name_read (of_le n.stored) (recv_all n.rounds n.inbox (of_le n.stored)))
      | inr e ↦ rw e (no_length n.outcome)
    ]

    magic_read : (magic : Received) → ImportIsGuarded m (after_magic rs magic s)
    magic_read magic =
        go magic.outcome (length magic.stored == 4) (same_chars 4 magic.stored import_magic)
      where
        then_length : Import
        then_length = after_length rs (recv_all magic.rounds magic.inbox 8) s

        go :
            (o : Outcome) (whole same : Bool)
            → ImportIsGuarded m (elim o as (λ _. Import) [
              | returned false ↦ invalid_magic
              | blocked ↦ no_topic Stop.in_call
              | returned true ↦
                  (if whole
                    then (if same then then_length else invalid_magic)
                    else no_topic Stop.unspecified)
            ])
        go (returned false) whole same = tt
        go blocked whole same = tt
        go (returned true) false same = tt
        go (returned true) true false = tt
        go (returned true) true true = length_read (recv_all magic.rounds magic.inbox 8)
