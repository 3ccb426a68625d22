-- ===== src/Binding/Publish.antt =====
-- Python's `publish` of src/pybind_wrapper.cpp beside publishRaw of src/publisher.cpp.
use com_ipc.Common.{
  ℕ, ◌≤◌, ◌<◌, ◌≡◌, inl, inr, List, true, false, ok, length, take, length-take, arith,
}
use com_ipc.Types.{msg_custom}
use com_ipc.Pool.{pool_size, get_offset, get_pointer, deposit, reserve}
use com_ipc.Pool.Bounds
use com_ipc.Pool.Bounds.{allocate_cases, reserve_bounds}
use com_ipc.Topic.{Call, Shm, publish_raw, publish_loaned, loan_raw}
use com_ipc.Binding.{BufferInfo, discard, publish}

-- A pointer into the data area gives its offset back.
get_offset-get_pointer :
    (offset : ℕ) → offset < pool_size → get_offset (get_pointer offset) ≡ ok offset
unfolding get_offset
get_offset-get_pointer offset h = ground arith

take_whole : (n : ℕ) (bytes : List ℕ) → n ≤ length bytes → length (take n bytes) ≡ n
take_whole n bytes h = omega (arith, length-take n bytes)

-- On a topic that is mapped, with no shutdown and a valid pool, Python's `publish` of a buffer with
-- at least one element, and no fewer bytes than elements, does exactly what publishRaw does with the
-- first `size` bytes, where `size` counts the elements: in every outcome of the locks, and for every
-- size.
pub publish-publish_raw :
    (c : Call) (info : BufferInfo) (s : Shm)
    → c.mapped ≡ true
    → c.shutdown ≡ false
    → Bounds.IsValid s.pool
    → 0 < info.size
    → info.size ≤ length info.bytes
    → publish c info s ≡ discard (publish_raw c (take info.size info.bytes) msg_custom s)
unfolding publish publish_raw loan_raw deposit publish_loaned
publish-publish_raw c info s m d v pos h =
    let whole = take_whole info.size info.bytes h in
    elim (allocate_cases c.pool_lock info.size s.pool) [
      | inl (_, e) ↦ ground (arith, e, whole, m, d)
      | inr (inl (_, _, _, e)) ↦ ground (arith, e, whole, m, d)
      | inr (inr (k, _, e)) ↦
          let inside = (reserve_bounds info.size v k).0 in
          ground (
            arith,
            e,
            whole,
            m,
            d,
            get_offset-get_pointer (reserve info.size s.pool).0 (omega (arith, inside)),
          )
    ]
