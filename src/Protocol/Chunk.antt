-- ===== src/Protocol/Chunk.antt =====
-- pkg/protocol/message.go: `SerializeChunkData` and `DeserializeChunkData`.
pub mod RoundTrip
use ssnproj.Base.{ℕ, ◌%◌, ◌^◌, List, [], ◌∷◌, ◌++◌, length, Result, ok, err, chunk_too_short}
use ssnproj.Base.{ltb, if◌then◌else◌}
use ssnproj.Bytes.BigEndian.{Bytes, put_uint16, put_uint32, put_uint64}
use ssnproj.Bytes.Reader.{Reader, ◌>>=◌, pure, run, read_uint, read_if_any, read_rest}
use ssnproj.Protocol.Types.{ChunkDataMessage}

-- The fields are a `uint32` or a `uint64` already.
unfoldable pub serialize_chunk_data : ChunkDataMessage → Bytes
serialize_chunk_data chunk =
    put_uint16 (length chunk.filename % 2 ^ 16)
    ++ (chunk.filename
        ++ (put_uint32 chunk.chunk_index
            ++ (put_uint32 chunk.total_chunks
                ++ (put_uint32 chunk.chunk_size
                    ++ (put_uint64 chunk.total_size ++ chunk.contents)))))

read_chunk_data : Reader ChunkDataMessage
read_chunk_data = do
  filename_len ← read_uint 2
  filename ← read_if_any filename_len
  chunk_index ← read_uint 4
  total_chunks ← read_uint 4
  chunk_size ← read_uint 4
  total_size ← read_uint 8
  remaining ← read_rest
  pure (record {
    filename = filename;
    chunk_index = chunk_index;
    total_chunks = total_chunks;
    chunk_size = chunk_size;
    total_size = total_size;
    contents = remaining;
  })

unfoldable pub deserialize_chunk_data : Bytes → Result ChunkDataMessage
unfolding read_chunk_data
deserialize_chunk_data bytes =
    if ltb (length bytes) 22 then err chunk_too_short else run read_chunk_data bytes
