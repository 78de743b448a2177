-- ===== src/Protocol/Response/RoundTrip.antt =====
-- Responses through `serialize_response` and `deserialize_response`.
use ssnproj.Base.{ℕ, ◌%◌, ◌^◌, ◌≡◌, ◌++◌, length, take, drop, arith, ok, Bool, false}
use ssnproj.Base.{ltb, ge→ltb}
use ssnproj.Bytes.BigEndian.{Bytes, put_uint16}
use ssnproj.Bytes.Reader.Laws.{read_uint-put_uint16, read_if_any_cut}
use ssnproj.Protocol.Response.{serialize_response, deserialize_response}

-- The flag is read back. The text is cut to its length modulo 2 ^ 16, and its tail goes to the
-- front of the contents.
pub deserialize_response-serialize_response :
    (success : Bool) (message contents : Bytes)
    → let n = length message % 2 ^ 16 in
      deserialize_response (serialize_response success message contents)
      ≡ ok (record {
        success = success;
        message = take n message;
        contents = drop n message ++ contents;
      })
unfolding deserialize_response serialize_response
deserialize_response-serialize_response success message contents =
    let n : ℕ = length message % 2 ^ 16 in
    ground (
      arith,
      long_enough,
      read_uint-put_uint16 n (message ++ contents) (omega arith),
      read_if_any_cut message contents n (omega arith),
    )
  where
    long_enough : ltb (length (serialize_response success message contents)) 3 ≡ false
    long_enough = unfold put_uint16 in ge→ltb _ 3 (omega arith)
