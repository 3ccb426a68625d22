-- ===== src/Udp/Header.antt =====
-- `QoSHeader` of inc/protocol.h: 14 packed bytes, each field least significant byte first.
use com_ipc.Common.{
  ℕ, ◌^◌, ◌<◌, ◌≡◌, List, ◌++◌, length, take, drop, length-append, append_assoc, arith, drop-append,
}
use com_ipc.Common.Bytes.{le_bytes, of_le, of_le-take, drop-le_bytes, length-le_bytes}

pub record QosHeader : Type 0 where
  pub seq_id : ℕ
  pub timestamp_us : ℕ
  pub msg_type : ℕ
  pub qos_flag : ℕ

-- `sizeof(QoSHeader)`
abbrev pub qos_header_size : ℕ
qos_header_size = 14

-- `memcpy` of a header into the packet.
unfoldable pub pack : QosHeader → List ℕ
pack h =
    le_bytes 4 h.seq_id
    ++ (le_bytes 8 h.timestamp_us ++ (le_bytes 1 h.msg_type ++ le_bytes 1 h.qos_flag))

-- The header that `reinterpret_cast<QoSHeader*>` reads off a buffer.
unfoldable pub unpack : List ℕ → QosHeader
unpack d = record {
  seq_id = of_le (take 4 d);
  timestamp_us = of_le (take 8 (drop 4 d));
  msg_type = of_le (take 1 (drop 8 (drop 4 d)));
  qos_flag = of_le (take 1 (drop 1 (drop 8 (drop 4 d))));
}

-- The fields are in the ranges of `uint32_t`, `uint64_t`, `uint8_t` and `uint8_t`.
pub record IsValid (h : QosHeader) : Type 0 where
  pub seq_id_lt : h.seq_id < 256 ^ 4
  pub timestamp_lt : h.timestamp_us < 256 ^ 8
  pub msg_type_lt : h.msg_type < 256 ^ 1
  pub qos_flag_lt : h.qos_flag < 256 ^ 1

pub length-pack : (h : QosHeader) → length (pack h) ≡ qos_header_size
unfolding pack
length-pack h = omega (
  arith,
  length-append {0} (le_bytes 4 h.seq_id)
      (le_bytes 8 h.timestamp_us ++ (le_bytes 1 h.msg_type ++ le_bytes 1 h.qos_flag)),
  length-append {0} (le_bytes 8 h.timestamp_us) (le_bytes 1 h.msg_type ++ le_bytes 1 h.qos_flag),
  length-append {0} (le_bytes 1 h.msg_type) (le_bytes 1 h.qos_flag),
  length-le_bytes,
)

-- A header that was packed in front of any payload is read back, field by field.
pub unpack-pack : (h : QosHeader) (bs : List ℕ) → IsValid h → unpack (pack h ++ bs) ≡ h
unfolding pack unpack
unpack-pack h bs v =
    simp (append_assoc, drop-le_bytes)
      (λ i. record {
        seq_id =
            of_le-take 4 h.seq_id
              (le_bytes 8 h.timestamp_us
                ++ (le_bytes 1 h.msg_type ++ (le_bytes 1 h.qos_flag ++ bs)))
              v.seq_id_lt i;
        timestamp_us =
            of_le-take 8 h.timestamp_us (le_bytes 1 h.msg_type ++ (le_bytes 1 h.qos_flag ++ bs))
              v.timestamp_lt i;
        msg_type = of_le-take 1 h.msg_type (le_bytes 1 h.qos_flag ++ bs) v.msg_type_lt i;
        qos_flag = of_le-take 1 h.qos_flag bs v.qos_flag_lt i;
      })

pub drop-pack : (h : QosHeader) (bs : List ℕ) → drop qos_header_size (pack h ++ bs) ≡ bs
drop-pack h bs = drop-append qos_header_size (pack h) bs (length-pack h)
