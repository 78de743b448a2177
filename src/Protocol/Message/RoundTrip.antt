-- ===== src/Protocol/Message/RoundTrip.antt =====
-- Messages through `serialize` and `deserialize`.
use ssnproj.Base.{ℕ, ◌+◌, ◌^◌, ◌<◌, ◌≡◌, refl, ◌++◌, [], length, arith, ok, err, eof}
use ssnproj.Base.{length-append, ge→ltb, ltb, false, append_assoc}
use ssnproj.Bytes.BigEndian.{Bytes, put_uint32, from_be}
use ssnproj.Bytes.Reader.Laws.{read_uint-put_uint32, read-append}
use ssnproj.Bytes.Reader.{read, read_uint}
use ssnproj.Protocol.Types.{Message, new_message}
use ssnproj.Protocol.Message.{serialize, deserialize}
use native.Mathlib.Nat.{mod-eq_of_lt}

pub length-serialize : (m : Message) → length (serialize m) ≡ 5 + length m.payload
unfolding serialize put_uint32
length-serialize m = omega arith

-- A message with a payload of 1 to 2 ^ 32 - 1 bytes is read back, whatever follows it.
pub deserialize-serialize :
    (m : Message) (rest : Bytes)
    → 0 < length m.payload
    → length m.payload < 2 ^ 32
    → deserialize (serialize m ++ rest) ≡ ok m
unfolding deserialize serialize
deserialize-serialize m rest some_payload fits =
    rw (long_enough, mod-eq_of_lt fits, append_assoc)
      (ground (
        arith,
        read_uint-put_uint32 (length m.payload) (m.payload ++ rest) fits,
        read-append m.payload rest some_payload,
      ))
  where
    long_enough : ltb (length (serialize m ++ rest)) 5 ≡ false
    long_enough = ge→ltb _ 5 (omega (arith, length-append (serialize m) rest, length-serialize m))

-- A message with no payload and nothing behind it is not read back: the last read meets the end of
-- the data, whatever the type of the message.
pub deserialize-serialize_empty :
    (kind : ℕ) → deserialize (serialize (new_message kind [])) ≡ err eof
unfolding deserialize serialize put_uint32 from_be read_uint read
deserialize-serialize_empty kind = refl
