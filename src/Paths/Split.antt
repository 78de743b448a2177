-- ===== src/Paths/Split.antt =====
-- `split`, and the names that it returns.
use ssnproj.Base.{ℕ, [], ◌∷◌, ◌++◌, List, ◌≡◌, ◌≢◌, refl, ◌∙◌, All, arith, append-nil}
use ssnproj.Base.{Bool-cases, inl, inr, ◌==◌}
use ssnproj.Bytes.BigEndian.{Bytes}
use ssnproj.Paths.{slash, cons_first, split, segments}

-- The bytes of one path element.
abbrev pub HasNoSlash : Bytes → Type 0
HasNoSlash name = All (λ c. c ≢ slash) name

cons_first-append :
    (c : ℕ) (xs ys : List Bytes) → xs ≢ [] → cons_first c (xs ++ ys) ≡ cons_first c xs ++ ys
cons_first-append c [] ys ne = absurd (ne refl)
cons_first-append c (x ∷ xs) ys ne = refl

split-ne-nil : (path : Bytes) → split path ≢ []
unfolding split
split-ne-nil [] e = cc
split-ne-nil (c ∷ path) e = ground arith

pub split-append_slash : (xs ys : Bytes) → split (xs ++ (slash ∷ ys)) ≡ split xs ++ split ys
unfolding split
split-append_slash [] ys = refl
split-append_slash (c ∷ xs) ys = elim (Bool-cases (c == slash)) [
  | inl s ↦ rw (s, split-append_slash xs ys)
  | inr n ↦
      rw (n, split-append_slash xs ys) (cons_first-append c (split xs) (split ys) (split-ne-nil xs))
]

pub split_name : (name : Bytes) → HasNoSlash name → split name ≡ name ∷ []
unfolding split
split_name [] h = refl
split_name (c ∷ name) (hc, h) = ground (arith, split_name name h)

cons_first-HasNoSlash :
    (c : ℕ) (names : List Bytes)
    → c ≢ slash
    → All HasNoSlash names
    → All HasNoSlash (cons_first c names)
cons_first-HasNoSlash c [] hc h = ((hc, tt), tt)
cons_first-HasNoSlash c (x ∷ names) hc (hx, h) = ((hc, hx), h)

pub split-HasNoSlash : (path : Bytes) → All HasNoSlash (split path)
unfolding split
split-HasNoSlash [] = (tt, tt)
split-HasNoSlash (c ∷ path) = elim (Bool-cases (c == slash)) [
  | inl s ↦ rw s (tt, split-HasNoSlash path)
  | inr n ↦ rw n (cons_first-HasNoSlash c (split path) (λ e. ground arith) (split-HasNoSlash path))
]

-- The elements come back from what is printed in front of them, each behind a slash.
pub split-append_segments :
    (name : Bytes) (names : List Bytes)
    → HasNoSlash name
    → All HasNoSlash names
    → split (name ++ segments names) ≡ name ∷ names
split-append_segments name [] h hs = rw append-nil (split_name name h)
split-append_segments name (x ∷ names) h (hx, hs) =
    split-append_slash name (x ++ segments names)
    ∙ rw (split_name name h, split-append_segments x names hx hs)
