-- ===== src/Manager/Growth.antt =====
-- The topics of a registry through its life.
use com_ipc.Common.{ℕ, zero, suc, ◌+◌, ◌≡◌, List, [], ◌∷◌, Bool, true, inl, inr, arith}
use com_ipc.Posix.{Posix}
use com_ipc.Manager.{SystemManagerShm, Entry, registered, enter}
use com_ipc.Manager.Nodes.{register_node, unregister_node}
use com_ipc.Manager.Segments.{create_or_get_service, create_service}
use com_ipc.Manager.Segments.Registry.{create_or_get_topic_change, with_topic}
use com_ipc.Manager.Life.{
  Step, topic, service, joins, leaves, Reach, here, next, SameEntries, register_node-SameEntries,
  unregister_node-SameEntries,
}

-- The lookup in the registry of topics.
abbrev pub Finds : List ℕ → SystemManagerShm → Type 0
Finds name m = registered m.topic_count m.topics name ≡ true

-- A new entry behind the others hides none of them.
pub registered-enter_mono :
    (n : ℕ) (new name : List ℕ) (es : List Entry)
    → registered n es name ≡ true
    → registered (suc n) (enter n new es) name ≡ true
unfolding registered enter
registered-enter_mono zero new name es h = cc
registered-enter_mono (suc n) new name [] h = cc
registered-enter_mono (suc n) new name (e ∷ es) h =
    ground (arith, registered-enter_mono n new name es)

with_topic-Finds :
    (new name : List ℕ) (m : SystemManagerShm) → Finds name m → Finds name (with_topic new m)
with_topic-Finds new name m h =
    let same : m.topic_count + 1 ≡ suc m.topic_count = omega arith in
    rw same (registered-enter_mono m.topic_count new name m.topics h)

move : (name : List ℕ) (m m' : SystemManagerShm) → SameEntries m m' → Finds name m → Finds name m'
move name m m' (a, b, _, _) h = rw (a, b) h

module _ (P : Posix) where
  create_or_get_service-topics :
      (lock : ℕ) (name : List ℕ) (is_server : Bool) (m : SystemManagerShm) (os : P.Os)
      → let m' = (create_or_get_service P lock name is_server m os).1 in
        (m'.topics ≡ m.topics) × (m'.topic_count ≡ m.topic_count)
  unfolding create_or_get_service create_service
  create_or_get_service-topics lock name is_server m os = ground arith

  Step-Finds :
      (name : List ℕ) (m m' : SystemManagerShm) → Step P m m' → Finds name m → Finds name m'
  Step-Finds name m m' (topic lock new is_publisher os) h =
      elim (create_or_get_topic_change P lock new is_publisher m os) [
        | inl e ↦ rw e h
        | inr (_, _, _, _, e) ↦ rw e (with_topic-Finds new name m h)
      ]
  Step-Finds name m m' (service lock new is_server os) h =
      let (a, b) = create_or_get_service-topics lock new is_server m os in rw (a, b) h
  Step-Finds name m m' (joins lock new pid) h =
      move name m (register_node lock new pid m).1 (register_node-SameEntries lock new pid m) h
  Step-Finds name m m' (leaves lock id) h =
      move name m (unregister_node lock id m).1 (unregister_node-SameEntries lock id m) h

  pub Reach-Finds :
      (name : List ℕ) (m m' : SystemManagerShm) → Reach P m m' → Finds name m → Finds name m'
  Reach-Finds name m m' here h = h
  Reach-Finds name m m' (next {k} r s) h = Step-Finds name k m' s (Reach-Finds name m k r h)
