-- ===== src/Bytes/BigEndian.antt =====
-- `binary.Write` and `binary.Read` of unsigned integers in big-endian order. An integer is taken
-- modulo its width by whoever converts it, as in `uint16(len(filename))`.
use ssnproj.Base.{ℕ, ◌+◌, ◌*◌, ◌/◌, ◌%◌, ◌^◌, ◌<◌, ◌≡◌, ◌∙◌, List, [], ◌∷◌, ◌++◌, arith}

abbrev pub Bytes : Type 0
Bytes = List ℕ

abbrev byte_at : ℕ → ℕ → ℕ
byte_at k v = v / 256 ^ k % 256

unfoldable pub put_uint16 : ℕ → Bytes
put_uint16 v = byte_at 1 v ∷ byte_at 0 v ∷ []

unfoldable pub put_uint32 : ℕ → Bytes
put_uint32 v = byte_at 3 v ∷ byte_at 2 v ∷ byte_at 1 v ∷ byte_at 0 v ∷ []

unfoldable pub put_uint64 : ℕ → Bytes
unfolding put_uint32
put_uint64 v = put_uint32 (v / 2 ^ 32) ++ put_uint32 v

-- The number that big-endian bytes stand for, in front of those already read.
unfoldable pub from_be : ℕ → Bytes → ℕ
from_be acc [] = acc
from_be acc (b ∷ bs) = from_be (acc * 256 + b) bs

pub from_be-put_uint16 : (v : ℕ) → v < 2 ^ 16 → from_be 0 (put_uint16 v) ≡ v
unfolding from_be put_uint16
from_be-put_uint16 v h = omega arith

pub from_be-put_uint32 : (acc v : ℕ) → from_be acc (put_uint32 v) ≡ acc * 2 ^ 32 + v % 2 ^ 32
unfolding from_be put_uint32
from_be-put_uint32 acc v = omega arith

pub from_be-append :
    (acc : ℕ) (xs ys : Bytes) → from_be acc (xs ++ ys) ≡ from_be (from_be acc xs) ys
unfolding from_be
from_be-append acc [] ys = ground arith
from_be-append acc (x ∷ xs) ys = from_be-append (acc * 256 + x) xs ys

pub from_be-put_uint64 : (v : ℕ) → v < 2 ^ 64 → from_be 0 (put_uint64 v) ≡ v
unfolding put_uint64
from_be-put_uint64 v h =
    from_be-append 0 (put_uint32 (v / 2 ^ 32)) (put_uint32 v)
    ∙ rw (from_be-put_uint32 0 (v / 2 ^ 32)) (from_be-put_uint32 _ v ∙ omega arith)
