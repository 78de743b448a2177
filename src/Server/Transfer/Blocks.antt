-- ===== src/Server/Transfer/Blocks.antt =====
-- What a chunked transfer of a file is, and that the blocks of a file are one.
use ssnproj.Base.{
  ℕ, zero, suc, ◌+◌, ◌*◌, ◌^◌, ◌≤◌, ◌<◌, ◌≡◌, ◌⊎◌, refl, sym, [], ◌∷◌, List, length, take, drop,
  length-take, length-drop, arith, ltb, ltb→lt, ltb-false→ge, Bool-cases, inl, inr,
}
use ssnproj.Bytes.BigEndian.{Bytes}
use ssnproj.Protocol.Types.{ChunkDataMessage}
use ssnproj.Server.Transfer.{chunk_size_of, total_chunks_of}
use ssnproj.Server.Transfer.Chunks.{
  chunks_from, file_chunks, joined, length-chunks_from, chunk_begins, chunk_size_le,
  joined-file_chunks,
}
use mathlib.Core.Path.{subst}

-- The size of the blocks of a file of `total` bytes: 64 KiB up to 256 KiB, 128 KiB up to 5 MiB, and
-- 256 KiB from there on.
abbrev pub IsBlockSize : ℕ → ℕ → Type 0
IsBlockSize total size =
    ((total < 262144) × (size ≡ 65536))
    ⊎ (((262144 ≤ total) × ((total < 5242880) × (size ≡ 131072)))
        ⊎ ((5242880 ≤ total) × (size ≡ 262144)))

-- Chunks of this file that are numbered from `i` on, and say what they hold.
abbrev pub IsNumbered : Bytes → ℕ → ℕ → ℕ → List ChunkDataMessage → Type 0
IsNumbered filename total count i [] = Unit
IsNumbered filename total count i (c ∷ cs) =
    ((c.filename ≡ filename)
      × ((c.chunk_index ≡ i)
          × ((c.total_chunks ≡ count)
              × ((c.chunk_size ≡ length c.contents) × (c.total_size ≡ total)))))
    × IsNumbered filename total count (suc i) cs

-- Every chunk but the last has `size` bytes, and the last one has some and no more than that.
abbrev pub IsFilled : ℕ → List ChunkDataMessage → Type 0
IsFilled size [] = Unit
IsFilled size (c ∷ []) = (0 < length c.contents) × (length c.contents ≤ size)
IsFilled size (c ∷ d ∷ cs) = (length c.contents ≡ size) × IsFilled size (d ∷ cs)

-- The chunks that carry a file: they say how many they are, and together they hold its bytes.
pub record IsTransfer (filename file_data : Bytes) (cs : List ChunkDataMessage) : Type 0 where
  pub size : ℕ
  pub is_size : IsBlockSize (length file_data) size
  pub numbered : IsNumbered filename (length file_data) (length cs) 0 cs
  pub filled : IsFilled size cs
  pub whole : joined cs ≡ file_data

chunk_size_of-IsBlockSize : (total : ℕ) → IsBlockSize total (chunk_size_of total)
unfolding chunk_size_of
chunk_size_of-IsBlockSize total = elim (Bool-cases (ltb total 262144)) [
  | inl small ↦ inl (ltb→lt _ _ small, rw small)
  | inr large ↦ elim (Bool-cases (ltb total 5242880)) [
    | inl medium ↦ inr (inl (ltb-false→ge _ _ large, (ltb→lt _ _ medium, rw (large, medium))))
    | inr huge ↦ inr (inr (ltb-false→ge _ _ huge, rw (large, huge)))
  ]
]

chunks_from-IsNumbered :
    (filename file_data : Bytes) (n i : ℕ)
    → IsNumbered filename
        (length file_data)
        (total_chunks_of (length file_data))
        i
        (chunks_from filename file_data n i)
chunks_from-IsNumbered filename file_data zero i = tt
chunks_from-IsNumbered filename file_data (suc n) i =
    ((refl, (refl, (refl, (refl, refl)))), chunks_from-IsNumbered filename file_data n (suc i))

-- A block that is followed by another is full, and no block is empty.
full_block :
    (file_data : Bytes) (i : ℕ)
    → length file_data < 2 ^ 32
    → suc i < total_chunks_of (length file_data)
    → let size = chunk_size_of (length file_data) in
      length (take size (drop (i * size) file_data)) ≡ size
full_block file_data i fits more =
    let size = chunk_size_of (length file_data) in
    let next : suc i * size ≡ i * size + size = omega arith in
    omega (
      arith,
      next,
      chunk_begins (length file_data) (suc i) fits more,
      length-take size (drop (i * size) file_data),
      length-drop (i * size) file_data,
    )

last_block :
    (file_data : Bytes) (i : ℕ)
    → length file_data < 2 ^ 32
    → i < total_chunks_of (length file_data)
    → let size = chunk_size_of (length file_data) in
      (0 < length (take size (drop (i * size) file_data)))
      × (length (take size (drop (i * size) file_data)) ≤ size)
last_block file_data i fits begun =
    let size = chunk_size_of (length file_data) in
    let begins = chunk_begins (length file_data) i fits begun in
    let some_size = chunk_size_le (length file_data) in
    let taken = length-take size (drop (i * size) file_data) in
    let left = length-drop (i * size) file_data in
    (omega (arith, begins, some_size, taken, left), omega (arith, begins, some_size, taken, left))

chunks_from-IsFilled :
    (filename file_data : Bytes) (n i : ℕ)
    → length file_data < 2 ^ 32
    → i + n ≤ total_chunks_of (length file_data)
    → IsFilled (chunk_size_of (length file_data)) (chunks_from filename file_data n i)
chunks_from-IsFilled filename file_data zero i fits h = tt
chunks_from-IsFilled filename file_data (suc zero) i fits h =
    last_block file_data i fits (omega arith)
chunks_from-IsFilled filename file_data (suc (suc n)) i fits h = (
  full_block file_data i fits (omega arith),
  chunks_from-IsFilled filename file_data (suc n) (suc i) fits (omega arith),
)

pub file_chunks-IsTransfer :
    (filename file_data : Bytes)
    → length file_data < 2 ^ 32
    → IsTransfer filename file_data (file_chunks filename file_data)
file_chunks-IsTransfer filename file_data fits =
    let count = total_chunks_of (length file_data) in
    record {
      size = chunk_size_of (length file_data);
      is_size = chunk_size_of-IsBlockSize (length file_data);
      numbered =
          subst
            (λ (n : ℕ). IsNumbered filename (length file_data) n 0 (file_chunks filename file_data))
            (sym (length-chunks_from filename file_data count 0))
            (chunks_from-IsNumbered filename file_data count 0);
      filled = chunks_from-IsFilled filename file_data count 0 fits (omega arith);
      whole = joined-file_chunks filename file_data fits;
    }
