-- ===== src/Protocol/Buffer.antt =====
-- pkg/protocol/message.go: `MessageBuffer`, which collects the bytes of partial messages.
pub mod Try
pub mod Stream
use ssnproj.Base.{ℕ, ◌+◌, List, [], ◌∷◌, ◌++◌, length, take, drop, Bool, ltb, if◌then◌else◌}
use ssnproj.Base.{Result, ok, err, insufficient_data, incomplete_payload}
use ssnproj.Bytes.BigEndian.{Bytes, from_be}
use ssnproj.Protocol.Types.{Message}
use ssnproj.Protocol.Message.{deserialize}

pub record MessageBuffer : Type 0 where
  pub buffer : Bytes

abbrev pub new_message_buffer : MessageBuffer
new_message_buffer = record { buffer = [] }

abbrev pub add_data : Bytes → MessageBuffer → MessageBuffer
add_data bytes mb = record { buffer = mb.buffer ++ bytes }

-- `5 + int(payloadLen)`, of bytes 1 to 4; an `int` has 64 bits, so the sum does not wrap.
abbrev pub total_message_len : Bytes → ℕ
total_message_len bytes = 5 + from_be 0 (take 4 (drop 1 bytes))

-- The end of `TryDeserialize`: an error of `Deserialize` leaves the buffer alone.
abbrev take_message : ℕ → MessageBuffer → Result Message → Result Message × MessageBuffer
take_message total mb (ok m) = (ok m, record { buffer = drop total mb.buffer })
take_message total mb (err e) = (err e, mb)

unfoldable pub try_deserialize : MessageBuffer → Result Message × MessageBuffer
try_deserialize mb =
    if ltb (length mb.buffer) 5
    then (err insufficient_data, mb)
    else (let total = total_message_len mb.buffer in
        if ltb (length mb.buffer) total
        then (err incomplete_payload, mb)
        else take_message total mb (deserialize (take total mb.buffer)))

abbrev pub has_data : MessageBuffer → Bool
has_data mb = ltb 0 (length mb.buffer)

abbrev pub clear : MessageBuffer → MessageBuffer
clear mb = record { buffer = [] }
