-- ===== src/Bytes/Reader/Laws.antt =====
-- What the readers return in front of bytes that the serializers wrote.
use ssnproj.Base.{ℕ, suc, ◌+◌, ◌-◌, ◌^◌, ◌≤◌, ◌<◌, ◌≡◌, refl, sym, ap, ◌∙◌, [], ◌∷◌, ◌++◌}
use ssnproj.Base.{length, take, drop, length-append, take-length, drop-length, length-take}
use ssnproj.Base.{take-append-drop, append-nil, append_assoc, arith, ok, ge→ltb, lt→ltb}
use ssnproj.Bytes.BigEndian.{Bytes, from_be, put_uint16, put_uint32, put_uint64}
use ssnproj.Bytes.BigEndian.{from_be-put_uint16, from_be-put_uint32, from_be-put_uint64}
use ssnproj.Bytes.Reader.{read, read_uint, read_if_any}

pub read-append : (xs rest : Bytes) → 0 < length xs → read (length xs) (xs ++ rest) ≡ ok (xs, rest)
unfolding read
read-append [] rest h = absurd (omega arith)
read-append (x ∷ xs) rest h =
    rw (take-length xs rest, drop-length xs rest, length-append xs rest, no_padding, append-nil)
  where
    no_padding : suc (length xs) - suc (length xs + length rest) ≡ 0
    no_padding = omega arith

pub read_uint-append :
    (xs rest : Bytes) → 0 < length xs → read_uint (length xs) (xs ++ rest) ≡ ok (from_be 0 xs, rest)
unfolding read_uint
read_uint-append [] rest h = absurd (omega arith)
read_uint-append (x ∷ xs) rest h = rw (
  ge→ltb (length ((x ∷ xs) ++ rest)) (length (x ∷ xs)) (omega (arith, length-append xs rest)),
  take-length xs rest,
  drop-length xs rest,
)

pub read_uint-put_uint16 :
    (v : ℕ) (rest : Bytes) → v < 2 ^ 16 → read_uint 2 (put_uint16 v ++ rest) ≡ ok (v, rest)
read_uint-put_uint16 v rest h =
    unfold put_uint16 in
    read_uint-append (put_uint16 v) rest (omega arith)
    ∙ ap (λ (n : ℕ). ok (n, rest)) (from_be-put_uint16 v h)

pub read_uint-put_uint32 :
    (v : ℕ) (rest : Bytes) → v < 2 ^ 32 → read_uint 4 (put_uint32 v ++ rest) ≡ ok (v, rest)
read_uint-put_uint32 v rest h =
    unfold put_uint32 in
    read_uint-append (put_uint32 v) rest (omega arith)
    ∙ ap (λ (n : ℕ). ok (n, rest)) (from_be-put_uint32 0 v ∙ omega arith)

pub read_uint-put_uint64 :
    (v : ℕ) (rest : Bytes) → v < 2 ^ 64 → read_uint 8 (put_uint64 v ++ rest) ≡ ok (v, rest)
read_uint-put_uint64 v rest h =
    unfold put_uint64 in
    read_uint-append (put_uint64 v) rest (omega arith)
    ∙ ap (λ (n : ℕ). ok (n, rest)) (from_be-put_uint64 v h)

-- An empty string is not read at all, so it is no error at the end of the data.
pub read_if_any-append : (xs rest : Bytes) → read_if_any (length xs) (xs ++ rest) ≡ ok (xs, rest)
unfolding read_if_any
read_if_any-append [] rest = refl
read_if_any-append (x ∷ xs) rest =
    rw (lt→ltb 0 (length (x ∷ xs)) (omega arith)) (read-append (x ∷ xs) rest (omega arith))

-- The length field of a string is its length modulo 2 ^ 16, so a long string is cut there.
pub read_if_any_cut :
    (xs rest : Bytes) (n : ℕ)
    → n ≤ length xs
    → read_if_any n (xs ++ rest) ≡ ok (take n xs, drop n xs ++ rest)
read_if_any_cut xs rest n h =
    ap (λ (s : Bytes). read_if_any n s)
      (ap (λ (s : Bytes). s ++ rest) (sym (take-append-drop n xs))
        ∙ append_assoc (take n xs) (drop n xs) rest)
    ∙ ap (λ (k : ℕ). read_if_any k (take n xs ++ (drop n xs ++ rest))) (sym size)
    ∙ read_if_any-append (take n xs) (drop n xs ++ rest)
  where
    size : length (take n xs) ≡ n
    size = omega (arith, length-take n xs)
