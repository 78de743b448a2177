-- ===== src/Protocol/Response.antt =====
-- pkg/protocol/message.go: `SerializeResponse` and `DeserializeResponse`.
pub mod RoundTrip
use ssnproj.Base.{ℕ, ◌%◌, ◌^◌, List, [], ◌∷◌, ◌++◌, length, Result, ok, err, response_too_short}
use ssnproj.Base.{Bool, ltb, ◌==◌, if◌then◌else◌}
use ssnproj.Bytes.BigEndian.{Bytes, put_uint16}
use ssnproj.Bytes.Reader.{Reader, ◌>>=◌, pure, run, read_byte, read_uint, read_if_any, read_rest}
use ssnproj.Protocol.Types.{ResponseMessage}

unfoldable pub serialize_response : Bool → Bytes → Bytes → Bytes
serialize_response success message contents =
    (if success then 1 else 0) ∷ put_uint16 (length message % 2 ^ 16) ++ (message ++ contents)

read_response : Reader ResponseMessage
read_response = do
  success_byte ← read_byte
  message_len ← read_uint 2
  message ← read_if_any message_len
  remaining ← read_rest
  pure (record { success = success_byte == 1; message = message; contents = remaining })

unfoldable pub deserialize_response : Bytes → Result ResponseMessage
unfolding read_response
deserialize_response bytes =
    if ltb (length bytes) 3 then err response_too_short else run read_response bytes
