-- ===== src/Protocol/Command.antt =====
-- pkg/protocol/message.go: `SerializeCommand` and `DeserializeCommand`.
pub mod RoundTrip
use ssnproj.Base.{ℕ, ◌%◌, ◌^◌, List, [], ◌∷◌, ◌++◌, length, Result, ok, err, command_too_short}
use ssnproj.Base.{ltb, if◌then◌else◌}
use ssnproj.Bytes.BigEndian.{Bytes, put_uint16}
use ssnproj.Bytes.Reader.{Reader, ◌>>=◌, pure, run, read_byte, read_uint, read_if_any, read_rest}
use ssnproj.Protocol.Types.{CommandMessage}

unfoldable pub serialize_command : ℕ → Bytes → Bytes → Bytes
serialize_command cmd filename contents =
    cmd ∷ put_uint16 (length filename % 2 ^ 16) ++ (filename ++ contents)

read_command : Reader CommandMessage
read_command = do
  cmd_type ← read_byte
  filename_len ← read_uint 2
  filename ← read_if_any filename_len
  remaining ← read_rest
  pure (record { command = cmd_type; filename = filename; contents = remaining })

unfoldable pub deserialize_command : Bytes → Result CommandMessage
unfolding read_command
deserialize_command bytes =
    if ltb (length bytes) 3 then err command_too_short else run read_command bytes
