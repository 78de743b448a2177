-- ===== src/Server/Transfer/Chunks.antt =====
-- The chunks of a file as they are meant: consecutive blocks of one size, the last one shorter.
use ssnproj.Base.{
  ℕ, zero, suc, ◌+◌, ◌*◌, ◌^◌, ◌≤◌, ◌<◌, ◌≡◌, refl, ap, sym, ◌∙◌, [], ◌∷◌, ◌++◌, List, length, take,
  drop,
}
use ssnproj.Base.{take-append-drop, drop-drop, drop_all, arith}
use ssnproj.Bytes.BigEndian.{Bytes}
use ssnproj.Protocol.Types.{ChunkDataMessage}
use ssnproj.Server.Transfer.{chunk_size_of, total_chunks_of}

-- Block `i` of the file.
abbrev pub chunk_at : Bytes → Bytes → ℕ → ChunkDataMessage
chunk_at filename file_data i =
    let size = chunk_size_of (length file_data) in
    let block = take size (drop (i * size) file_data) in
    record {
      filename = filename;
      chunk_index = i;
      total_chunks = total_chunks_of (length file_data);
      chunk_size = length block;
      total_size = length file_data;
      contents = block;
    }

-- `n` blocks from block `i` on.
abbrev pub chunks_from : Bytes → Bytes → ℕ → ℕ → List ChunkDataMessage
chunks_from filename file_data zero i = []
chunks_from filename file_data (suc n) i =
    chunk_at filename file_data i ∷ chunks_from filename file_data n (suc i)

abbrev pub file_chunks : Bytes → Bytes → List ChunkDataMessage
file_chunks filename file_data =
    chunks_from filename file_data (total_chunks_of (length file_data)) 0

abbrev pub joined : List ChunkDataMessage → Bytes
joined [] = []
joined (c ∷ cs) = c.contents ++ joined cs

pub length-chunks_from :
    (filename file_data : Bytes) (n i : ℕ) → length (chunks_from filename file_data n i) ≡ n
length-chunks_from filename file_data zero i = refl
length-chunks_from filename file_data (suc n) i =
    ap suc (length-chunks_from filename file_data n (suc i))

-- The blocks in front of the end begin inside the file, and all blocks together reach its end.
pub chunk_begins :
    (total i : ℕ) → total < 2 ^ 32 → i < total_chunks_of total → i * chunk_size_of total < total
unfolding total_chunks_of chunk_size_of
chunk_begins total i fits h = ground arith

pub chunks_reach_end :
    (total : ℕ) → total < 2 ^ 32 → total ≤ total_chunks_of total * chunk_size_of total
unfolding total_chunks_of chunk_size_of
chunks_reach_end total fits = ground arith

pub chunk_size_le : (total : ℕ) → (0 < chunk_size_of total) × (chunk_size_of total ≤ 2 ^ 18)
unfolding chunk_size_of
chunk_size_le total = ground arith

joined-chunks_from :
    (filename file_data : Bytes) (n i : ℕ)
    → length file_data ≤ (i + n) * chunk_size_of (length file_data)
    → joined (chunks_from filename file_data n i)
      ≡ drop (i * chunk_size_of (length file_data)) file_data
joined-chunks_from filename file_data zero i h = sym (drop_all _ file_data (grind arith))
joined-chunks_from filename file_data (suc n) i h =
    let size = chunk_size_of (length file_data) in
    let next : suc i * size ≡ i * size + size = omega arith in
    rw (joined-chunks_from filename file_data n (suc i) (omega arith), next)
      (rw (← drop-drop size (i * size) file_data)
        (take-append-drop size (drop (i * size) file_data)))

-- The chunks of a file of less than 4 GiB hold the file.
pub joined-file_chunks :
    (filename file_data : Bytes)
    → length file_data < 2 ^ 32
    → joined (file_chunks filename file_data) ≡ file_data
joined-file_chunks filename file_data fits =
    joined-chunks_from filename file_data (total_chunks_of (length file_data)) 0
      (omega (arith, chunks_reach_end (length file_data) fits))
    ∙ ap (λ (k : ℕ). drop k file_data) {x = 0 * chunk_size_of (length file_data)} {y = 0}
        (omega arith)
