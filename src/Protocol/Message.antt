-- ===== src/Protocol/Message.antt =====
-- pkg/protocol/message.go: `Serialize` and `Deserialize`. Writes to a `bytes.Buffer` never fail,
-- so the serializers return their bytes with no error.
pub mod RoundTrip
use ssnproj.Base.{ℕ, ◌%◌, ◌^◌, ◌∷◌, ◌++◌, length, Result, err, data_too_short, ltb, if◌then◌else◌}
use ssnproj.Bytes.BigEndian.{Bytes, put_uint32}
use ssnproj.Bytes.Reader.{Reader, ◌>>=◌, pure, run, read_byte, read, read_uint}
use ssnproj.Protocol.Types.{Message}

-- `uint32(len(m.Payload))` keeps the low 32 bits.
unfoldable pub serialize : Message → Bytes
serialize m = m.kind ∷ put_uint32 (length m.payload % 2 ^ 32) ++ m.payload

read_message : Reader Message
read_message = do
  msg_type ← read_byte
  payload_len ← read_uint 4
  payload ← read payload_len
  pure (record { kind = msg_type; payload = payload })

unfoldable pub deserialize : Bytes → Result Message
unfolding read_message
deserialize bytes = if ltb (length bytes) 5 then err data_too_short else run read_message bytes
