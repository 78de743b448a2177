-- ===== src/Protocol/Chunk/RoundTrip.antt =====
-- Chunks through `serialize_chunk_data` and `deserialize_chunk_data`.
use ssnproj.Base.{ℕ, ◌+◌, ◌^◌, ◌<◌, ◌≡◌, ◌++◌, length, arith, ok, false, ltb, ge→ltb}
use ssnproj.Base.{length-append}
use ssnproj.Bytes.BigEndian.{Bytes, put_uint16, put_uint32, put_uint64}
use ssnproj.Bytes.Reader.Laws.{read_uint-put_uint16, read_uint-put_uint32, read_uint-put_uint64}
use ssnproj.Bytes.Reader.Laws.{read_if_any-append}
use ssnproj.Protocol.Types.{ChunkDataMessage}
use ssnproj.Protocol.Chunk.{serialize_chunk_data, deserialize_chunk_data}
use native.Mathlib.Nat.{mod-eq_of_lt}

-- The fields of a chunk fit their widths on the wire.
pub record Fits (c : ChunkDataMessage) : Type 0 where
  pub filename_fits : length c.filename < 2 ^ 16
  pub index_fits : c.chunk_index < 2 ^ 32
  pub total_fits : c.total_chunks < 2 ^ 32
  pub size_fits : c.chunk_size < 2 ^ 32
  pub total_size_fits : c.total_size < 2 ^ 64

length-put_uint16-append : (v : ℕ) (rest : Bytes) → length (put_uint16 v ++ rest) ≡ 2 + length rest
unfolding put_uint16
length-put_uint16-append v rest = omega arith

length-put_uint32-append : (v : ℕ) (rest : Bytes) → length (put_uint32 v ++ rest) ≡ 4 + length rest
unfolding put_uint32
length-put_uint32-append v rest = omega arith

length-put_uint64-append : (v : ℕ) (rest : Bytes) → length (put_uint64 v ++ rest) ≡ 8 + length rest
unfolding put_uint64
length-put_uint64-append v rest = omega arith

-- The 22 bytes that the reader asks for first are there, with the name and the contents.
pub length-serialize_chunk_data :
    (c : ChunkDataMessage)
    → length (serialize_chunk_data c) ≡ 22 + length c.filename + length c.contents
unfolding serialize_chunk_data
length-serialize_chunk_data c = omega (
  arith,
  length-put_uint16-append,
  length-append {0},
  length-put_uint32-append,
  length-put_uint64-append,
)

-- A chunk whose fields fit their widths is read back whole.
pub deserialize_chunk_data-serialize_chunk_data :
    (c : ChunkDataMessage) → Fits c → deserialize_chunk_data (serialize_chunk_data c) ≡ ok c
unfolding deserialize_chunk_data serialize_chunk_data
deserialize_chunk_data-serialize_chunk_data c h =
    let r4 : Bytes = put_uint64 c.total_size ++ c.contents in
    let r3 : Bytes = put_uint32 c.chunk_size ++ r4 in
    let r2 : Bytes = put_uint32 c.total_chunks ++ r3 in
    let r1 : Bytes = put_uint32 c.chunk_index ++ r2 in
    rw (long_enough, mod-eq_of_lt h.filename_fits)
      (ground (
        arith,
        read_uint-put_uint16 (length c.filename) (c.filename ++ r1) h.filename_fits,
        read_if_any-append c.filename r1,
        read_uint-put_uint32 c.chunk_index r2 h.index_fits,
        read_uint-put_uint32 c.total_chunks r3 h.total_fits,
        read_uint-put_uint32 c.chunk_size r4 h.size_fits,
        read_uint-put_uint64 c.total_size c.contents h.total_size_fits,
      ))
  where
    long_enough : ltb (length (serialize_chunk_data c)) 22 ≡ false
    long_enough = ge→ltb _ 22 (omega (arith, length-serialize_chunk_data c))
