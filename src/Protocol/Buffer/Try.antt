-- ===== src/Protocol/Buffer/Try.antt =====
-- `try_deserialize` on whole messages, on parts of them, and on more data than one message.
use ssnproj.Base.{ℕ, ◌+◌, ◌≤◌, ◌≡◌, ◌≢◌, ◌∙◌, ◌++◌}
use ssnproj.Base.{
  length, take, drop, length-append, length-drop, take-append_le, drop-append_le, arith,
}
use ssnproj.Base.{Error, ok, err, insufficient_data, incomplete_payload, Result-cases}
use ssnproj.Base.{ge→ltb}
use ssnproj.Bytes.BigEndian.{Bytes}
use ssnproj.Protocol.Types.{Message}
use ssnproj.Protocol.Message.{deserialize}
use ssnproj.Protocol.Buffer.{
  MessageBuffer, add_data, total_message_len, try_deserialize, take_message,
}

pub total_message_len-append :
    (xs ys : Bytes) → 5 ≤ length xs → total_message_len (xs ++ ys) ≡ total_message_len xs
total_message_len-append xs ys h =
    rw (drop-append_le 1 xs ys (omega arith))
      (rw (take-append_le 4 (drop 1 xs) ys (omega (arith, length-drop 1 xs))))

-- A message that is taken off the buffer is the front of it, of five bytes at least.
pub try_deserialize_takes :
    (mb mb' : MessageBuffer) (m : Message)
    → try_deserialize mb ≡ (ok m, mb')
    → let total = total_message_len mb.buffer in
      (total ≤ length mb.buffer)
      × (deserialize (take total mb.buffer) ≡ ok m)
      × (mb'.buffer ≡ drop total mb.buffer)
      × (length mb'.buffer + total ≡ length mb.buffer)
unfolding try_deserialize
try_deserialize_takes mb mb' m e = ground (
  arith,
  Result-cases (deserialize (take (total_message_len mb.buffer) mb.buffer)),
  length-drop (total_message_len mb.buffer) mb.buffer,
)

-- Whatever the error, the buffer keeps its data.
pub try_deserialize_keeps :
    (mb mb' : MessageBuffer) (e : Error) → try_deserialize mb ≡ (err e, mb') → mb' ≡ mb
unfolding try_deserialize
try_deserialize_keeps mb mb' e h =
    ground (arith, Result-cases (deserialize (take (total_message_len mb.buffer) mb.buffer)))

-- Data that arrives behind a whole message does not change what is taken.
pub try_deserialize-add_data_ok :
    (mb mb' : MessageBuffer) (m : Message) (more : Bytes)
    → try_deserialize mb ≡ (ok m, mb')
    → try_deserialize (add_data more mb) ≡ (ok m, add_data more mb')
unfolding try_deserialize
try_deserialize-add_data_ok mb mb' m more e =
    let total : ℕ = total_message_len mb.buffer in
    ground (
      arith,
      Result-cases (deserialize (take total mb.buffer)),
      length-append mb.buffer more,
      total_message_len-append mb.buffer more,
      take-append_le total mb.buffer more,
      drop-append_le total mb.buffer more,
    )

-- With a whole message at hand the answer is that of `deserialize`.
pub try_deserialize_whole :
    (mb : MessageBuffer)
    → total_message_len mb.buffer ≤ length mb.buffer
    → let total = total_message_len mb.buffer in
      try_deserialize mb ≡ take_message total mb (deserialize (take total mb.buffer))
unfolding try_deserialize
try_deserialize_whole mb h = rw (
  ge→ltb (length mb.buffer) 5 (omega arith),
  ge→ltb (length mb.buffer) (total_message_len mb.buffer) h,
)

-- Any other error than those about missing data comes from `deserialize`, on a whole message.
pub try_deserialize_err :
    (mb mb' : MessageBuffer) (e : Error)
    → e ≢ insufficient_data
    → e ≢ incomplete_payload
    → try_deserialize mb ≡ (err e, mb')
    → let total = total_message_len mb.buffer in
      (total ≤ length mb.buffer) × (deserialize (take total mb.buffer) ≡ err e)
unfolding try_deserialize
try_deserialize_err mb mb' e n1 n2 h =
    ground (arith, Result-cases (deserialize (take (total_message_len mb.buffer) mb.buffer)))

-- An error other than the two about missing data is not mended by more data.
pub try_deserialize-add_data_err :
    (mb mb' : MessageBuffer) (e : Error) (more : Bytes)
    → e ≢ insufficient_data
    → e ≢ incomplete_payload
    → try_deserialize mb ≡ (err e, mb')
    → try_deserialize (add_data more mb) ≡ (err e, add_data more mb')
try_deserialize-add_data_err mb mb' e more n1 n2 h =
    let (whole, refused) = try_deserialize_err mb mb' e n1 n2 h in
    let total : ℕ = total_message_len mb.buffer in
    let same = total_message_len-append mb.buffer more (omega arith) in
    try_deserialize_whole (add_data more mb) (omega (arith, same, length-append mb.buffer more))
    ∙ rw
        (same, take-append_le total mb.buffer more whole, refused, try_deserialize_keeps mb mb' e h)
