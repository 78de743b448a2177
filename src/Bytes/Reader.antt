-- ===== src/Bytes/Reader.antt =====
-- `bytes.Reader`, by the bytes that it has not handed out yet.
pub mod Laws
use ssnproj.Base.{ℕ, ◌-◌, [], ◌∷◌, ◌++◌, length, take, drop, replicate}
use ssnproj.Base.{Result, ok, err, eof, unexpected_eof, ltb, if◌then◌else◌}
use ssnproj.Bytes.BigEndian.{Bytes, from_be}

abbrev pub Reader : Type 0 → Type 0
Reader A = Bytes → Result (A × Bytes)

infixl 5 ◌>>=◌
abbrev pub ◌>>=◌ : {A B : Type 0} → Reader A → (A → Reader B) → Reader B
◌>>=◌ m f s = elim (m s) [ ok (a, s') ↦ f a s' | err e ↦ err e ]

abbrev pub pure : {A : Type 0} → A → Reader A
pure a s = ok (a, s)

-- The value that a reader over `s` ends with; the reader itself is dropped.
abbrev pub run : {A : Type 0} → Reader A → Bytes → Result A
run m s = elim (m s) [ ok (a, _) ↦ ok a | err e ↦ err e ]

-- `ReadByte`
abbrev pub read_byte : Reader ℕ
read_byte [] = err eof
read_byte (b ∷ s) = ok (b, s)

-- `Read` into a fresh slice of `n` zeros: at the end of the data it fails, for `n = 0` too;
-- otherwise it copies what there is, and the rest of the slice stays zero.
unfoldable pub read : ℕ → Reader Bytes
read n [] = err eof
read n (b ∷ s) = ok (take n (b ∷ s) ++ replicate (n - length (b ∷ s)) 0, drop n (b ∷ s))

-- `binary.Read` of an unsigned integer of `n` bytes, by `io.ReadFull`.
unfoldable pub read_uint : ℕ → Reader ℕ
read_uint n [] = err eof
read_uint n (b ∷ s) =
    if ltb (length (b ∷ s)) n
    then err unexpected_eof
    else ok (from_be 0 (take n (b ∷ s)), drop n (b ∷ s))

-- `if n > 0 { buf.Read(…) }`, into a slice of `n` zeros.
unfoldable pub read_if_any : ℕ → Reader Bytes
unfolding read
read_if_any n = if ltb 0 n then read n else pure []

-- `Read` of all that is left, where the end of the data is no error.
abbrev pub read_rest : Reader Bytes
read_rest s = ok (s, [])
