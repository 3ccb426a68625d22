-- ===== src/Service/Channel.antt =====
-- The channel of a service between one client (inc/service_client.h) and one server
-- (src/service_server.cpp), section by section under the mutex: the server works between its two
-- sections on the request that it copied in the first, while the client may give up and ask again.
pub mod Sound
pub mod Finds
pub mod Answers
use com_ipc.Common.{ℕ, ◌+◌, ◌≡◌, List, [], ◌∷◌, true, false, Option, some, none}
use com_ipc.Types.{ServiceRequestHeader, ServiceShm}
use com_ipc.Service.{ServiceCallback, clear, post, is_pending, respond}

-- The segment, the request that the server has copied, what the client has asked under which number,
-- and the client's `next_req_id_`.
pub record Channel : Type 0 where
  pub segment : ServiceShm
  pub copied : Option ServiceRequestHeader
  pub asked : List (ℕ × List ℕ)
  pub next_req_id : ℕ

-- A client that has not asked, on a channel that is free.
abbrev pub opened : ServiceShm → Channel
opened s = record { segment = clear s; copied = none; asked = []; next_req_id = 0 }

-- The client's section behind its first loop.
abbrev pub ask : (pid : ℕ) → List ℕ → Channel → Channel
ask pid bytes x =
    let id : ℕ = x.next_req_id + 1 in
    record x {
      segment = post pid id bytes x.segment;
      asked = (id, bytes) ∷ x.asked;
      next_req_id = id;
    }

module _ (cb : ServiceCallback) where
  -- The server copies a request, answers what it copied, dies, or clears the channel, as it does
  -- when it recovers a lock. A server that is constructed again has another file and segment, and
  -- leaves this one as it is.
  pub data ServerStep (x : Channel) : Channel → Type 0 where
    copies :
        is_pending x.segment ≡ true → ServerStep x (record x { copied = some x.segment.request })
    answers :
        (req : ServiceRequestHeader)
        → x.copied ≡ some req
        → ServerStep x (record x {
          segment = respond req (cb req.bytes req.data_size) x.segment;
          copied = none;
        })
    dies : ServerStep x (record x { copied = none })
    wipes : ServerStep x (record x { segment = clear x.segment })

  -- The client asks, gives up, or takes a response.
  pub data ClientStep (pid : ℕ) (x : Channel) : Channel → Type 0 where
    asks : (bytes : List ℕ) → ClientStep pid x (ask pid bytes x)
    gives_up : ClientStep pid x (record x { segment = clear x.segment })
    takes : ClientStep pid x (record x { segment = record x.segment { has_response = false } })

  pub data ServerSteps (x : Channel) : Channel → Type 0 where
    none_yet : ServerSteps x x
    one_more : {y z : Channel} → ServerSteps x y → ServerStep y z → ServerSteps x z

  pub data Reach (pid : ℕ) (x : Channel) : Channel → Type 0 where
    start : Reach pid x x
    by_server : {y z : Channel} → Reach pid x y → ServerStep y z → Reach pid x z
    by_client : {y z : Channel} → Reach pid x y → ClientStep pid y z → Reach pid x z
