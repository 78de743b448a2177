-- ===== src/Paths/Names.antt =====
-- Equality of strings and prefixes, as the tests of `strings` compute them.
use ssnproj.Base.{[], ◌∷◌, ◌++◌, ◌≡◌, refl, arith, true, false, ◌≢◌, Bool-cases, inl, inr}
use ssnproj.Bytes.BigEndian.{Bytes}
use ssnproj.Paths.{bytes_eq, has_prefix}

pub bytes_eq_refl : (xs : Bytes) → bytes_eq xs xs ≡ true
unfolding bytes_eq
bytes_eq_refl [] = refl
bytes_eq_refl (x ∷ xs) = ground (arith, bytes_eq_refl xs)

pub bytes_eq→eq : (xs ys : Bytes) → bytes_eq xs ys ≡ true → xs ≡ ys
unfolding bytes_eq
bytes_eq→eq [] [] h = refl
bytes_eq→eq [] (y ∷ ys) h = cc
bytes_eq→eq (x ∷ xs) [] h = cc
bytes_eq→eq (x ∷ xs) (y ∷ ys) h = ground (arith, bytes_eq→eq xs ys)

pub ne→bytes_eq : (xs ys : Bytes) → xs ≢ ys → bytes_eq xs ys ≡ false
ne→bytes_eq xs ys ne = elim (Bool-cases (bytes_eq xs ys)) [
  | inl e ↦ absurd (ne (bytes_eq→eq xs ys e))
  | inr e ↦ e
]

pub bytes_eq-false→ne : (xs ys : Bytes) → bytes_eq xs ys ≡ false → xs ≢ ys
bytes_eq-false→ne xs ys h e = cc (bytes_eq_refl ys, rw e at h)

pub has_prefix-append : (xs ys : Bytes) → has_prefix xs (xs ++ ys) ≡ true
unfolding has_prefix
has_prefix-append [] ys = refl
has_prefix-append (x ∷ xs) ys = ground (arith, has_prefix-append xs ys)

pub has_prefix→append :
    (xs ys : Bytes) → has_prefix xs ys ≡ true → (rest : Bytes) × (ys ≡ xs ++ rest)
unfolding has_prefix
has_prefix→append [] ys h = (ys, refl)
has_prefix→append (x ∷ xs) [] h = cc
has_prefix→append (x ∷ xs) (y ∷ ys) h =
    let tail : has_prefix xs ys ≡ true = ground arith in
    let (rest, e) = has_prefix→append xs ys tail in (rest, ground arith)
