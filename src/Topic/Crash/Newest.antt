-- ===== src/Topic/Crash/Newest.antt =====
-- What stays readable when a publisher dies in its locked section.
use com_ipc.Common.{
  ℕ, zero, suc, ◌+◌, ◌%◌, ◌^◌, ◌<◌, ◌≤◌, ◌≡◌, refl, ◌∙◌, List, [], ◌∷◌, ◌++◌, take, length, arith,
  ap, ◌⊎◌, inl, inr, leb, Bool-cases,
}
use com_ipc.Types.{MessageHeader, TopicShm, buffer_size, zero_header}
use com_ipc.Topic.{enqueue}
use com_ipc.Topic.Ring.{IsUsable, newest, newest_slot, get_or-set_ne}
use com_ipc.Topic.Crash.{Write, to_header, count_up, advance, fill, run, Death, died}
use com_ipc.Topic.Crash.Recovery.{Keep, Keep-run, section-enqueue}

take-append_le {ℓ} :
    {A : Type ℓ} (k : ℕ) (xs ys : List A) → k ≤ length xs → take k (xs ++ ys) ≡ take k xs
take-append_le zero xs ys h = refl
take-append_le (suc k) [] ys h = absurd (omega arith)
take-append_le (suc k) (x ∷ xs) ys h = ap (λ r. x ∷ r) (take-append_le k xs ys (omega arith))

take_all {ℓ} : {A : Type ℓ} (k : ℕ) (xs : List A) → length xs ≤ k → take k xs ≡ xs
take_all zero [] h = refl
take_all zero (x ∷ xs) h = absurd (omega arith)
take_all (suc k) [] h = refl
take_all (suc k) (x ∷ xs) h = ap (λ r. x ∷ r) (take_all k xs (omega arith))

-- The newest header stays readable while its publisher writes the next: the two have different
-- slots.
abbrev Shows : TopicShm → TopicShm → Type 0
Shows t u = (u.write_index ≡ t.write_index) × (newest u ≡ newest t)

to_header-Shows :
    (f : MessageHeader → MessageHeader) (t u : TopicShm)
    → t.write_index < 2 ^ 32
    → Shows t u
    → Shows t (to_header (t.write_index % buffer_size) f u)
to_header-Shows f t u b (i, n) = (
  i,
  get_or-set_ne u.buffer (t.write_index % buffer_size) (newest_slot u) _ zero_header
        (omega (arith, i))
      ∙ n,
)

fill-Shows :
    (size type offset now : ℕ) (t : TopicShm)
    → t.write_index < 2 ^ 32
    → Keep (Shows t) (fill size type offset now (t.write_index % buffer_size))
fill-Shows size type offset now t b = (
  λ u v. v,
  (
    λ u. to_header-Shows (λ h. record h { seq = u.seq }) t u b,
    (
      λ u. to_header-Shows (λ h. record h { timestamp = now }) t u b,
      (
        λ u. to_header-Shows (λ h. record h { data_size = size % 2 ^ 32 }) t u b,
        (
          λ u. to_header-Shows (λ h. record h { type = type }) t u b,
          (λ u. to_header-Shows (λ h. record h { pool_offset = offset }) t u b, tt),
        ),
      ),
    ),
  ),
)

-- A publisher dies before its last write, and the newest header is what it was; or after it, and
-- the message is enqueued.
pub died_cases :
    (d : Death) (t : TopicShm)
    → IsUsable t
    → ((d.steps ≤ 6) × (newest (died d t) ≡ newest t))
      ⊎ ((7 ≤ d.steps) × (died d t ≡ enqueue d.size d.type d.offset d.now t))
unfolding died
died_cases d t v =
    let slot : ℕ = t.write_index % buffer_size in
    let before : List Write = fill d.size d.type d.offset d.now slot in
    elim (Bool-cases (leb d.steps 6)) [
      | inl e ↦
          let h : d.steps ≤ 6 = ground arith in
          inl (
            h,
            ap (λ fs. newest (run fs t)) (take-append_le d.steps before (advance ∷ []) h)
                ∙ (Keep-run (Shows t) d.steps before t
                    (fill-Shows d.size d.type d.offset d.now t v.index_bound) (refl, refl)).1,
          )
      | inr e ↦
          let h : 7 ≤ d.steps = ground arith in
          inr (
            h,
            ap (λ fs. run fs t) (take_all d.steps (before ++ advance ∷ []) h)
                ∙ section-enqueue d.size d.type d.offset d.now t v.slots,
          )
    ]

fill-seq :
    (size type offset now slot : ℕ) (t : TopicShm) (k : ℕ)
    → 1 ≤ k
    → (run (take k (fill size type offset now slot)) t).seq ≡ (t.seq + 1) % 2 ^ 32
fill-seq size type offset now slot t zero l = absurd (omega arith)
fill-seq size type offset now slot t (suc k) l =
    Keep-run (λ u. u.seq ≡ (t.seq + 1) % 2 ^ 32) k _ (count_up t)
      (λ u v. v, (λ u v. v, (λ u v. v, (λ u v. v, (λ u v. v, tt))))) refl

-- From the first write to the last the number of the topic is one ahead of the newest header.
pub died-seq :
    (d : Death) (t : TopicShm) → 1 ≤ d.steps → d.steps ≤ 6 → (died d t).seq ≡ (t.seq + 1) % 2 ^ 32
unfolding died
died-seq d t l h =
    let slot : ℕ = t.write_index % buffer_size in
    ap (λ fs. (run fs t).seq)
      (take-append_le d.steps (fill d.size d.type d.offset d.now slot) (advance ∷ []) h)
    ∙ fill-seq d.size d.type d.offset d.now slot t d.steps l
