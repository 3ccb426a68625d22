-- ===== src/Types.antt =====
-- inc/com_ipc_types.h: the limits, the message types and the shared-memory layouts of topics. A
-- fixed-width integer is the number below its 2 ^ w; `int32_t` fields hold the bit pattern.
use com_ipc.Common.{ℕ, List, replicate, Bool}

abbrev pub max_topics : ℕ
max_topics = 20

abbrev pub max_nodes : ℕ
max_nodes = 50

abbrev pub buffer_size : ℕ
buffer_size = 20

abbrev pub max_msg_size : ℕ
max_msg_size = 256

abbrev pub max_services : ℕ
max_services = 20

-- `enum MessageType`, as the `int32_t` that the header carries.
abbrev pub msg_string : ℕ
msg_string = 0

abbrev pub msg_int_array : ℕ
msg_int_array = 1

abbrev pub msg_float_data : ℕ
msg_float_data = 2

abbrev pub msg_pose : ℕ
msg_pose = 3

abbrev pub msg_custom : ℕ
msg_custom = 4

-- `MessageHeader`, packed: 4 + 4 + 8 + 4 + 4 bytes.
pub record MessageHeader : Type 0 where
  pub type : ℕ
  pub seq : ℕ
  pub timestamp : ℕ
  pub data_size : ℕ
  pub pool_offset : ℕ

abbrev pub header_size : ℕ
header_size = 24

-- The bytes of a new segment are zero.
abbrev pub zero_header : MessageHeader
zero_header = record { type = 0; seq = 0; timestamp = 0; data_size = 0; pool_offset = 0 }

-- `TopicShm`, without its mutex and condition variable.
pub record TopicShm : Type 0 where
  pub write_index : ℕ
  pub seq : ℕ
  pub active_subscribers : ℕ
  pub buffer : List MessageHeader

-- A new topic, as `createOrGetTopic` leaves it.
abbrev pub new_topic : TopicShm
new_topic = record {
  write_index = 0;
  seq = 0;
  active_subscribers = 0;
  buffer = replicate buffer_size zero_header;
}

-- `ServiceRequestHeader`; `data_size` bytes of `data` are the request.
pub record ServiceRequestHeader : Type 0 where
  pub client_pid : ℕ
  pub request_id : ℕ
  pub data_size : ℕ
  pub bytes : List ℕ

-- `ServiceResponseHeader`
pub record ServiceResponseHeader : Type 0 where
  pub request_id : ℕ
  pub data_size : ℕ
  pub bytes : List ℕ

-- `ServiceShm`, without its mutex and condition variables.
pub record ServiceShm : Type 0 where
  pub has_request : Bool
  pub has_response : Bool
  pub request : ServiceRequestHeader
  pub response : ServiceResponseHeader
