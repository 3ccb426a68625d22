-- ===== src/Endpoint/FirstMessage.antt =====
-- From the constructors to the first message: registry, publisher, pool and subscriber together.
use com_ipc.Common.{
  ℕ, ◌+◌, ◌%◌, ◌^◌, ◌≤◌, ◌<◌, ◌≡◌, refl, sym, ◌∙◌, ap, List, [], ◌∷◌, ◌++◌, true, false, some, ok,
  length, arith,
}
use com_ipc.Common.Int.{ℤ}
use com_ipc.CString.{IsText}
use com_ipc.Posix.{Posix, topic_shm}
use com_ipc.Types.{TopicShm, header_size}
use com_ipc.Manager.{SystemManagerShm}
use com_ipc.Manager.Life
use com_ipc.Manager.Segments.{open_file, shm_name, topic_prefix}
use com_ipc.Manager.Segments.Registry
use com_ipc.Pool.{Pool, deposits}
use com_ipc.Pool.Bounds
use com_ipc.Topic.{Shm, Call, publish_raw, enqueue}
use com_ipc.Topic.Ring
use com_ipc.Subscriber.{Subscriber, Frame, receive_raw, receive_size, done}
use com_ipc.Subscriber.Delivery.{publish_raw_success, receive_raw-publish_raw}
use com_ipc.Endpoint.{built, Turn, publisher, subscriber}
use com_ipc.Endpoint.Polling.{IsQuiet, IsLive, AreWaiting, joined, settled}
use com_ipc.Endpoint.Files.{Files, open_file-mapped, publisher-mapped, shown_to}
use com_ipc.Endpoint.Meeting.{subscriber-publisher}

-- One more subscriber does not disturb the ring.
joined-IsValid : (P : Posix) (t : TopicShm) → Ring.IsValid t → Ring.IsValid (joined P t)
joined-IsValid P t v = record {
  slots = v.slots;
  index_bound = v.index_bound;
  seq_bound = v.seq_bound;
  numbered = v.numbered;
}

published_seq :
    (c : Call) (bytes : List ℕ) (type : ℕ) (s s' : Shm)
    → publish_raw c bytes type s ≡ (ok true, s')
    → s'.topic.seq ≡ (s.topic.seq + 1) % 2 ^ 32
unfolding enqueue
published_seq c bytes type s s' h =
    let (_, _, e) = publish_raw_success c bytes type s s' h in ap (λ (t : TopicShm). t.seq) e

module _ (P : Posix) where
  open P use {Os, load_topic, store_topic}

  -- The whole way of a topic, on a kernel with free mutexes and memory that keeps what is stored, in
  -- which a name leads to a file and all mappings of a file show the same memory. A publisher is
  -- constructed, from a valid registry and under a name of at most 63 characters (none of them zero);
  -- processes do to the registry what they like; a subscriber of that name is constructed, which
  -- looks as often as it has to: at first the topic is not registered, the last time it has the lock,
  -- no shutdown is requested, and the kernel opens the file. By then nobody has unlinked or replaced
  -- the file of the topic (a topic whose name differs only in `/` and `_` would), and the publisher's
  -- mapping is still there. Then the first message that the publisher publishes through its mapping,
  -- with a valid pool and ring, of a size that `receive` has room for and with a number that does not
  -- wrap, is received by that subscriber through its own mapping, if it looks before anything else is
  -- stored, with its bytes and its type.
  pub first_message :
      (F : Files P) (name : List ℕ) (m m' : SystemManagerShm) (os os' : Os) (address : ℕ)
      → (ts : List (Turn P)) (t : Turn P) (rest : List (Turn P)) (a : ℕ) (opened : Os)
      → (c : Call) (bytes : List ℕ) (type : ℕ) (pool : Pool) (s' : Shm) (timeout_ms : ℤ) → IsQuiet P
      → Registry.IsValid m
      → IsText name
      → length name ≤ 63
      → publisher P 0 name m os ≡ (ok address, m', os')
      → AreWaiting P name ts
      → IsLive P t
      → Life.Reach P m' t.manager
      → open_file P topic_shm (shm_name topic_prefix name) t.os ≡ (some a, opened)
      → F.named (shm_name topic_prefix name) t.os ≡ F.named (shm_name topic_prefix name) os'
      → F.mapped address opened ≡ F.mapped address os'
      → Bounds.IsValid pool
      → Ring.IsValid (load_topic a opened)
      → (load_topic a opened).seq + 1 < 2 ^ 32
      → header_size + length bytes ≤ receive_size
      → publish_raw c bytes type
          (record { pool = pool; topic = load_topic address (settled P a opened) })
        ≡ (ok true, s')
      → let stored = store_topic address s'.topic (settled P a opened) in
        (sub : Subscriber) × (f : Frame) × (subscriber P name (ts ++ t ∷ rest)
          ≡ built (sub, settled P a opened))
        × (receive_raw sub receive_size timeout_ms (record {
          shutdown = false;
          topic = load_topic a stored;
          lock = 0;
          wakes = [];
          pool = s'.pool;
        })
            ≡ done (record sub { last_seq = s'.topic.seq }, some f))
        × (f.payload ≡ bytes)
        × (f.header.type ≡ type)
  unfolding deposits
  first_message F name m m' os os' address ts t rest a opened c bytes type pool s' timeout_ms q v
        text fits made w live r e linked held vp vt small short sent =
      let (attached, counted) =
        subscriber-publisher P name m m' os os' address ts t rest a opened q v text fits made w live
          r e in
      let one_file : F.mapped a opened ≡ F.mapped address opened =
        (open_file-mapped P F (shm_name topic_prefix name) a topic_shm t.os opened e).0
        ∙ linked
        ∙ sym (publisher-mapped P F name m m' os os' address made)
        ∙ sym held in
      let (shown, back) = shown_to P F a address opened s'.topic q one_file in
      let before : Shm = record { pool = pool; topic = joined P (load_topic a opened) } in
      let sent' : publish_raw c bytes type before ≡ (ok true, s') =
        ap (λ topic. publish_raw c bytes type (record { pool = pool; topic = topic }))
          (sym counted ∙ shown)
        ∙ sent in
      let sub : Subscriber = record { mapped = true; last_seq = (load_topic a opened).seq } in
      let newer = published_seq c bytes type before s' sent' in
      let (f, got, payload, kind, _, _) =
        receive_raw-publish_raw c bytes type before sub receive_size timeout_ms [] 0 vp
          (joined-IsValid P (load_topic a opened) vt) sent' refl (omega (arith, newer)) short tt
          (omega arith) (omega arith) in
      (sub, f, attached, rw back got, payload, kind)
