-- ===== src/Protocol/Types.antt =====
-- pkg/protocol/message.go: the message types, the command types and the structs of the protocol.
-- A byte, a `uint32` and a `uint64` are numbers; what converts to such a type takes the remainder.
use ssnproj.Base.{ℕ, Bool}
use ssnproj.Bytes.BigEndian.{Bytes}

abbrev pub message_type_handshake : ℕ
message_type_handshake = 0x01

abbrev pub message_type_command : ℕ
message_type_command = 0x02

abbrev pub message_type_data : ℕ
message_type_data = 0x03

abbrev pub message_type_response : ℕ
message_type_response = 0x04

abbrev pub command_upload : ℕ
command_upload = 0x01

abbrev pub command_download : ℕ
command_download = 0x02

abbrev pub command_list : ℕ
command_list = 0x03

abbrev pub command_delete : ℕ
command_delete = 0x04

-- `Type` is `kind` here.
pub record Message : Type 0 where
  pub kind : ℕ
  pub payload : Bytes

-- In this struct and the next two, `Data` is `contents` here.
pub record CommandMessage : Type 0 where
  pub command : ℕ
  pub filename : Bytes
  pub contents : Bytes

pub record ResponseMessage : Type 0 where
  pub success : Bool
  pub message : Bytes
  pub contents : Bytes

pub record ChunkDataMessage : Type 0 where
  pub filename : Bytes
  pub chunk_index : ℕ
  pub total_chunks : ℕ
  pub chunk_size : ℕ
  pub total_size : ℕ
  pub contents : Bytes

abbrev pub new_message : ℕ → Bytes → Message
new_message msg_type payload = record { kind = msg_type; payload = payload }
