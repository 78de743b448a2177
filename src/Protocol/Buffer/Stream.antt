-- ===== src/Protocol/Buffer/Stream.antt =====
-- `try_deserialize` on what `serialize` wrote: whole messages, cut ones and empty ones.
use ssnproj.Base.{
  ℕ, sym, Bool-cases, inl, inr, ltb-false→ge, ◌+◌, ◌%◌, ◌^◌, ◌≤◌, ◌<◌, ◌≡◌, refl, ap, ◌∙◌, [], ◌++◌,
  length, take, drop,
}
use ssnproj.Base.{length-append, append-nil, take-length, drop-length, length-take, arith}
use ssnproj.Base.{take-append-drop, ok, err, eof, insufficient_data}
use ssnproj.Base.{incomplete_payload, lt→ltb, ltb, if◌then◌else◌}
use ssnproj.Bytes.BigEndian.{Bytes, from_be, put_uint32, from_be-put_uint32}
use ssnproj.Protocol.Types.{Message, new_message}
use ssnproj.Protocol.Message.{serialize}
use ssnproj.Protocol.Message.RoundTrip.{length-serialize, deserialize-serialize}
use ssnproj.Protocol.Message.RoundTrip.{deserialize-serialize_empty}
use ssnproj.Protocol.Buffer.Try.{total_message_len-append}
use ssnproj.Protocol.Buffer.{MessageBuffer, total_message_len, try_deserialize}

-- The length field says how long the message is.
total_message_len-serialize :
    (m : Message) (rest : Bytes)
    → length m.payload < 2 ^ 32
    → total_message_len (serialize m ++ rest) ≡ length (serialize m)
total_message_len-serialize m rest fits =
    rw length-serialize (field ∙ omega (arith, from_be-put_uint32 0 (length m.payload % 2 ^ 32)))
  where
    field :
        total_message_len (serialize m ++ rest)
        ≡ 5 + from_be 0 (put_uint32 (length m.payload % 2 ^ 32))
    field = unfold serialize put_uint32 in refl

total_message_len_partial :
    (m : Message) (n : ℕ)
    → n < length (serialize m)
    → length m.payload < 2 ^ 32
    → 5 ≤ n
    → total_message_len (take n (serialize m)) ≡ length (serialize m)
total_message_len_partial m n short fits header =
    let whole = take-append-drop n (serialize m) in
    sym (
      total_message_len-append (take n (serialize m)) (drop n (serialize m))
        (omega (arith, length-take n (serialize m))))
    ∙ ap total_message_len (whole ∙ sym (append-nil (serialize m)))
    ∙ total_message_len-serialize m [] fits

-- A message of 1 to 2 ^ 32 - 1 bytes that stands in front of the buffer is returned, and the
-- buffer keeps what follows it.
pub try_deserialize-serialize :
    (m : Message) (rest : Bytes)
    → 0 < length m.payload
    → length m.payload < 2 ^ 32
    → try_deserialize (record { buffer = serialize m ++ rest }) ≡ (ok m, record { buffer = rest })
unfolding try_deserialize
try_deserialize-serialize m rest some_payload fits = ground (
  arith,
  length-append (serialize m) rest,
  length-serialize m,
  total_message_len-serialize m rest fits,
  take-length (serialize m) rest,
  drop-length (serialize m) rest,
  rw append-nil at (deserialize-serialize m [] some_payload fits),
)

-- A proper prefix of a message is not ready: below five bytes for want of a header, and from there
-- on for want of payload. The buffer keeps it.
pub try_deserialize_partial :
    (m : Message) (n : ℕ)
    → n < length (serialize m)
    → length m.payload < 2 ^ 32
    → let mb : MessageBuffer = record { buffer = take n (serialize m) } in
      try_deserialize mb ≡ (if ltb n 5 then err insufficient_data else err incomplete_payload, mb)
unfolding try_deserialize
try_deserialize_partial m n short fits = elim (Bool-cases (ltb n 5)) [
  | inl header ↦ rw (header, size, header)
  | inr some_payload ↦
      rw (some_payload, size, some_payload)
        (let field = total_message_len_partial m n short fits (ltb-false→ge n 5 some_payload) in
          rw (field, lt→ltb n (length (serialize m)) short))
]
  where
    size : length (take n (serialize m)) ≡ n
    size = omega (arith, length-take n (serialize m))

-- A message with no payload is refused with the end-of-data error, and stays in front of the
-- buffer, whatever follows it.
pub try_deserialize-serialize_empty :
    (kind : ℕ) (rest : Bytes)
    → let mb : MessageBuffer = record { buffer = serialize (new_message kind []) ++ rest } in
      try_deserialize mb ≡ (err eof, mb)
unfolding try_deserialize
try_deserialize-serialize_empty kind rest =
    let m : Message = new_message kind [] in
    ground (
      arith,
      length-append (serialize m) rest,
      length-serialize m,
      total_message_len-serialize m rest (omega arith),
      take-length (serialize m) rest,
      deserialize-serialize_empty kind,
    )
