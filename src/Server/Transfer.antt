-- ===== src/Server/Transfer.antt =====
-- pkg/server/commands.go: `sendFileInChunks`. Offsets are `uint32` there, and wrap.
pub mod Chunks
pub mod Blocks
pub mod Sends
pub mod Overflow
use ssnproj.Base.{ℕ, zero, suc, ◌+◌, ◌-◌, ◌*◌, ◌/◌, ◌%◌, ◌^◌, [], ◌∷◌, List, length, take, drop}
use ssnproj.Base.{ltb, if◌then◌else◌, Option, none, some, send_chunk}
use ssnproj.Bytes.BigEndian.{Bytes}
use ssnproj.Protocol.Types.{Message, ChunkDataMessage, new_message, message_type_data}
use ssnproj.Protocol.Chunk.{serialize_chunk_data}
use ssnproj.Effects.{Process, pure, lift, or_crash, wrapping, then_process}
use ssnproj.Server.World.{ConnectionSender}

abbrev pub small_file_threshold : ℕ
small_file_threshold = 256 * 1024

abbrev pub medium_file_threshold : ℕ
medium_file_threshold = 5 * 1024 * 1024

abbrev pub small_chunk_size : ℕ
small_chunk_size = 64 * 1024

abbrev pub medium_chunk_size : ℕ
medium_chunk_size = 128 * 1024

abbrev pub large_chunk_size : ℕ
large_chunk_size = 256 * 1024

unfoldable pub chunk_size_of : ℕ → ℕ
chunk_size_of total_size =
    if ltb total_size small_file_threshold
    then small_chunk_size
    else (if ltb total_size medium_file_threshold then medium_chunk_size else large_chunk_size)

unfoldable pub total_chunks_of : ℕ → ℕ
total_chunks_of total_size =
    (total_size + chunk_size_of total_size - 1) / chunk_size_of total_size % 2 ^ 32

-- `xs[start:end]`, which panics out of bounds.
unfoldable pub slice : ℕ → ℕ → Bytes → Option Bytes
slice start end xs =
    if ltb end start
    then none
    else (if ltb (length xs) end then none else some (take (end - start) (drop start xs)))

abbrev pub chunk_message : ChunkDataMessage → Message
chunk_message chunk = new_message message_type_data (serialize_chunk_data chunk)

-- The bounds of chunk `i`, in `uint32` arithmetic.
abbrev pub chunk_start : ℕ → ℕ → ℕ
chunk_start chunk_size i = i * chunk_size % 2 ^ 32

abbrev pub chunk_end : ℕ → ℕ → ℕ → ℕ
chunk_end total_size chunk_size i =
    let end = (chunk_start chunk_size i + chunk_size) % 2 ^ 32 in
    if ltb (total_size % 2 ^ 32) end then total_size % 2 ^ 32 else end

-- The message of round `i`.
abbrev pub new_chunk : Bytes → ℕ → ℕ → Bytes → ChunkDataMessage
new_chunk filename i total_size chunk_data = record {
  filename = filename;
  chunk_index = i;
  total_chunks = total_chunks_of total_size;
  chunk_size = length chunk_data % 2 ^ 32;
  total_size = total_size;
  contents = chunk_data;
}

module _ {W : Type 0} (conn : ConnectionSender W) where
  -- The loop, with the number of rounds left: `total_chunks - i`.
  unfoldable pub send_chunks : Bytes → Bytes → ℕ → ℕ → Process W (Unit {0})
  send_chunks filename file_data zero i = lift (pure tt)
  send_chunks filename file_data (suc rounds) i =
      let total_size = length file_data in
      let chunk_size = chunk_size_of total_size in
      or_crash (slice (chunk_start chunk_size i) (chunk_end total_size chunk_size i) file_data)
        (λ chunk_data.
          then_process
            (wrapping send_chunk (
              conn.send_secure_message
                (chunk_message (new_chunk filename i total_size chunk_data))))
            (λ _. send_chunks filename file_data rounds (suc i)))

  unfoldable pub send_file_in_chunks : Bytes → Bytes → Process W (Unit {0})
  send_file_in_chunks filename file_data =
      send_chunks filename file_data (total_chunks_of (length file_data)) 0
