-- ===== src/Topic/Crash.antt =====
-- A publisher that dies inside the locked section of publishRaw or publishLoaned
-- (src/publisher.cpp): the section as its writes, one by one in the order of the source, and the
-- topic that is left when only the first of them were done.
pub mod Recovery
pub mod Newest
use com_ipc.Common.{ℕ, ◌+◌, ◌%◌, ◌^◌, List, [], ◌∷◌, ◌++◌, take, set, get_or}
use com_ipc.Types.{MessageHeader, TopicShm, buffer_size, zero_header}

abbrev pub Write : Type 0
Write = TopicShm → TopicShm

-- A write to a field of `buffer[slot].header`.
abbrev pub to_header : ℕ → (MessageHeader → MessageHeader) → Write
to_header slot f t = record t { buffer = set t.buffer slot (f (get_or t.buffer slot zero_header)) }

-- `++shm_ptr_->seq`
abbrev pub count_up : Write
count_up t = record t { seq = (t.seq + 1) % 2 ^ 32 }

-- `shm_ptr_->write_index++`
abbrev pub advance : Write
advance t = record t { write_index = (t.write_index + 1) % 2 ^ 32 }

-- The writes of the section before the last one.
abbrev pub fill : (size type offset now slot : ℕ) → List Write
fill size type offset now slot =
    count_up
    ∷ (λ t. to_header slot (λ h. record h { seq = t.seq }) t)
    ∷ to_header slot (λ h. record h { timestamp = now })
    ∷ to_header slot (λ h. record h { data_size = size % 2 ^ 32 })
    ∷ to_header slot (λ h. record h { type = type })
    ∷ to_header slot (λ h. record h { pool_offset = offset })
    ∷ []

abbrev pub section : (size type offset now slot : ℕ) → List Write
section size type offset now slot = fill size type offset now slot ++ advance ∷ []

abbrev pub run : List Write → TopicShm → TopicShm
run [] t = t
run (f ∷ fs) t = run fs (f t)

-- A message, and how many of the writes its publisher lives to do.
pub record Death : Type 0 where
  pub size : ℕ
  pub type : ℕ
  pub offset : ℕ
  pub now : ℕ
  pub steps : ℕ

-- The topic that such a publisher leaves, and that a row of them leaves.
unfoldable pub died : Death → TopicShm → TopicShm
died d t = run (take d.steps (section d.size d.type d.offset d.now (t.write_index % buffer_size))) t

unfoldable pub all_died : List Death → TopicShm → TopicShm
unfolding died
all_died [] t = t
all_died (d ∷ ds) t = all_died ds (died d t)
