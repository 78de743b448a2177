-- ===== src/Paths/Absolute.antt =====
-- Absolute paths: what `abs_path` and `join` return for them.
use ssnproj.Base.{[], ◌∷◌, ◌++◌, List, All-reverse, ◌≡◌, refl, sym, ap, ◌∙◌, All, arith, append-nil}
use ssnproj.Base.{true, false, Bool-cases, inl, inr}
use ssnproj.Bytes.BigEndian.{Bytes}
use ssnproj.Paths.{slash, split, push, print_abs, is_abs, clean}
use ssnproj.Base.{Result, ok, Result-cases}
use ssnproj.Paths.{join, abs_path}
use ssnproj.Paths.Split.{split-append_slash, split-HasNoSlash, split_name}
use mathlib.Core.Path.{subst}
use mathlib.Core.List.{foldl, reverse, reverse-cons, foldl-append}
use ssnproj.Paths.Clean.{IsName, push_name, foldl-push-IsName, is_abs-print_abs, clean-print_abs}

-- A path is clean and absolute: its elements name entries all the way from the root.
abbrev pub IsCleanAbs : Bytes → Type 0
IsCleanAbs path = (names : List Bytes) × (path ≡ print_abs names) × All IsName names

pub clean-IsCleanAbs : (path : Bytes) → is_abs path ≡ true → IsCleanAbs (clean path)
unfolding clean
clean-IsCleanAbs path rooted = (
  reverse (foldl (push true) [] (split path)),
  rw rooted,
  All-reverse IsName _ (foldl-push-IsName (split path) [] tt (split-HasNoSlash path)),
)

join-IsCleanAbs : (wd path : Bytes) → is_abs wd ≡ true → IsCleanAbs (join wd path)
join-IsCleanAbs [] path rooted = unfold is_abs in cc
join-IsCleanAbs (c ∷ wd) path rooted =
    unfold join in clean-IsCleanAbs ((c ∷ wd) ++ (slash ∷ path)) (unfold is_abs in rooted)

-- What `Abs` returns is clean and absolute, if the working directory is an absolute path.
pub abs_path-IsCleanAbs :
    (getwd : Result Bytes) (path : Bytes) {p : Bytes}
    → ((wd : Bytes) → getwd ≡ ok wd → is_abs wd ≡ true)
    → abs_path getwd path ≡ ok p
    → IsCleanAbs p
unfolding abs_path
abs_path-IsCleanAbs getwd path wd_abs e = elim (Bool-cases (is_abs path)) [
  | inl rooted ↦ subst IsCleanAbs (ground arith) (clean-IsCleanAbs path rooted)
  | inr relative ↦ elim (Result-cases getwd) [
    | inl (wd, found) ↦ subst IsCleanAbs (ground arith) (join-IsCleanAbs wd path (wd_abs wd found))
    | inr (x, failed) ↦ absurd (ground arith)
  ]
]

-- A clean absolute path is its own absolute path.
pub abs_path-print_abs :
    (getwd : Result Bytes) (names : List Bytes)
    → All IsName names
    → abs_path getwd (print_abs names) ≡ ok (print_abs names)
unfolding abs_path
abs_path-print_abs getwd names h = rw (
  ap is_abs (sym (append-nil (print_abs names))) ∙ is_abs-print_abs names [],
  clean-print_abs names h,
)

pub IsName-relative : (name : Bytes) → IsName name → is_abs name ≡ false
unfolding is_abs
IsName-relative [] h = refl
IsName-relative (c ∷ name) h = let ne = h.no_slash.0 in ground arith

-- The elements of an absolute path.
unfoldable pub abs_names : Bytes → List Bytes
abs_names path = reverse (foldl (push true) [] (split path))

pub abs_names-IsName : (path : Bytes) → All IsName (abs_names path)
unfolding abs_names
abs_names-IsName path =
    All-reverse IsName _ (foldl-push-IsName (split path) [] tt (split-HasNoSlash path))

is_abs-append : (path rest : Bytes) → is_abs path ≡ true → is_abs (path ++ rest) ≡ true
unfolding is_abs
is_abs-append [] rest h = cc
is_abs-append (c ∷ path) rest h = h

clean_name :
    (path name : Bytes)
    → is_abs path ≡ true
    → IsName name
    → clean (path ++ (slash ∷ name)) ≡ print_abs (abs_names path ++ (name ∷ []))
unfolding clean abs_names
clean_name path name rooted h =
    rw
      (
        is_abs-append path (slash ∷ name) rooted,
        split-append_slash path name,
        split_name name h.no_slash,
      )
      (rw (foldl-append, push_name _ name h) (rw reverse-cons))

-- An entry of an absolute directory, whether the directory is written in a clean way or not.
pub join_name :
    (dir name : Bytes)
    → is_abs dir ≡ true
    → IsName name
    → join dir name ≡ print_abs (abs_names dir ++ (name ∷ []))
unfolding join abs_names
join_name [] name rooted h = unfold is_abs in cc
join_name (c ∷ dir) name rooted h = clean_name (c ∷ dir) name rooted h
