-- ===== src/Protocol/Command/RoundTrip.antt =====
-- Command messages through `serialize_command` and `deserialize_command`.
use ssnproj.Base.{ℕ, ◌%◌, ◌^◌, ◌≡◌, ◌++◌, length, take, drop, arith, ok}
use ssnproj.Base.{ltb, false, ge→ltb}
use ssnproj.Bytes.BigEndian.{Bytes, put_uint16}
use ssnproj.Bytes.Reader.Laws.{read_uint-put_uint16, read_if_any_cut}
use ssnproj.Protocol.Command.{serialize_command, deserialize_command}

-- A command is read back, but for its name. The name is cut to its length modulo 2 ^ 16, and its tail goes to the front of the contents.
pub deserialize_command-serialize_command :
    (cmd : ℕ) (filename contents : Bytes)
    → let n = length filename % 2 ^ 16 in
      deserialize_command (serialize_command cmd filename contents)
      ≡ ok (record {
        command = cmd;
        filename = take n filename;
        contents = drop n filename ++ contents;
      })
unfolding deserialize_command serialize_command
deserialize_command-serialize_command cmd filename contents =
    let n : ℕ = length filename % 2 ^ 16 in
    rw long_enough (
      ground (
        arith,
        read_uint-put_uint16 n (filename ++ contents) (omega arith),
        read_if_any_cut filename contents n (omega arith),
      ))
  where
    long_enough : ltb (length (serialize_command cmd filename contents)) 3 ≡ false
    long_enough = unfold put_uint16 in ge→ltb _ 3 (omega arith)
