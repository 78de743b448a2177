-- ===== src/Paths/Clean.antt =====
-- `clean` on absolute paths: what it returns, and that it leaves a clean path alone.
use ssnproj.Base.{
  [], ◌∷◌, ◌++◌, List, ◌||◌, All-map, All-reverse, ◌≡◌, ◌≢◌, refl, sym, ap, ◌∙◌, All, arith,
  append-nil,
}
use ssnproj.Base.{true, false, Bool-cases, inl, inr, append_assoc}
use ssnproj.Bytes.BigEndian.{Bytes}
use ssnproj.Paths.{slash, dot, dot_dot, bytes_eq, split, push, print_abs, is_abs, clean}
use ssnproj.Paths.{go_up, join}
use ssnproj.Paths.Names.{bytes_eq→eq, ne→bytes_eq, bytes_eq-false→ne}
use ssnproj.Paths.Split.{
  HasNoSlash, split-append_segments, split-append_slash, split-HasNoSlash, split_name,
}
use mathlib.Core.List.{foldl, reverse, reverse-cons, reverse-reverse, foldl-append}

-- An element that names an entry of a directory.
pub record IsName (name : Bytes) : Type 0 where
  pub ne_empty : name ≢ []
  pub ne_dot : name ≢ dot
  pub ne_dot_dot : name ≢ dot_dot
  pub no_slash : HasNoSlash name

go_up-IsName : (stack : List Bytes) → All IsName stack → All IsName (go_up true stack)
go_up-IsName [] h = tt
go_up-IsName (top ∷ rest) (ht, h) = elim (Bool-cases (bytes_eq top dot_dot)) [
  | inl e ↦ absurd (ht.ne_dot_dot (bytes_eq→eq top dot_dot e))
  | inr e ↦ rw e h
]

is_name :
    (name : Bytes)
    → HasNoSlash name
    → (bytes_eq name [] || bytes_eq name dot) ≡ false
    → bytes_eq name dot_dot ≡ false
    → IsName name
is_name name hn kept down = record {
  ne_empty = bytes_eq-false→ne name [] (ground arith);
  ne_dot = bytes_eq-false→ne name dot (ground arith);
  ne_dot_dot = bytes_eq-false→ne name dot_dot down;
  no_slash = hn;
}

-- At the root only names are ever kept.
push-IsName :
    (stack : List Bytes) (name : Bytes)
    → All IsName stack
    → HasNoSlash name
    → All IsName (push true stack name)
unfolding push
push-IsName stack name h hn = elim (Bool-cases (bytes_eq name [] || bytes_eq name dot)) [
  | inl skipped ↦ rw skipped h
  | inr kept ↦ elim (Bool-cases (bytes_eq name dot_dot)) [
    | inl up ↦ rw (kept, up) (go_up-IsName stack h)
    | inr down ↦ rw (kept, down) (is_name name hn kept down, h)
  ]
]

pub foldl-push-IsName :
    (names stack : List Bytes)
    → All IsName stack
    → All HasNoSlash names
    → All IsName (foldl (push true) stack names)
foldl-push-IsName [] stack h hn = h
foldl-push-IsName (name ∷ names) stack h (hn, hns) =
    foldl-push-IsName names (push true stack name) (push-IsName stack name h hn) hns

pub push_name :
    (stack : List Bytes) (name : Bytes) → IsName name → push true stack name ≡ name ∷ stack
unfolding push
push_name stack name h = rw (
  ne→bytes_eq name [] h.ne_empty,
  ne→bytes_eq name dot h.ne_dot,
  ne→bytes_eq name dot_dot h.ne_dot_dot,
)

-- The elements that `f` leads to from the directory `names`.
abbrev pub resolve : List Bytes → Bytes → List Bytes
resolve names f = reverse (foldl (push true) (reverse names) (split f))

foldl-push_names :
    (names stack : List Bytes)
    → All IsName names
    → foldl (push true) stack names ≡ reverse names ++ stack
foldl-push_names [] stack h = refl
foldl-push_names (name ∷ names) stack (hn, h) =
    rw (push_name stack name hn)
      (foldl-push_names names (name ∷ stack) h ∙ rw (reverse-cons, append_assoc))

pub All-HasNoSlash : (names : List Bytes) → All IsName names → All HasNoSlash names
All-HasNoSlash names h = All-map (λ name n. n.no_slash) names h

pub split-slash : (s : Bytes) → split (slash ∷ s) ≡ [] ∷ split s
unfolding split
split-slash s = refl

push_empty : (stack : List Bytes) → push true stack [] ≡ stack
unfolding push
push_empty stack = refl

-- Reading back a printed absolute path.
foldl-push-print_abs :
    (names : List Bytes)
    → All IsName names
    → foldl (push true) [] (split (print_abs names)) ≡ reverse names
foldl-push-print_abs [] h = unfold push split bytes_eq in refl
foldl-push-print_abs (name ∷ names) (hn, h) =
    rw (split-slash, split-append_segments name names hn.no_slash (All-HasNoSlash names h))
      (rw push_empty
        (foldl-push_names (name ∷ names) [] (hn, h) ∙ append-nil (reverse (name ∷ names))))

pub is_abs-print_abs : (names : List Bytes) (f : Bytes) → is_abs (print_abs names ++ f) ≡ true
unfolding is_abs
is_abs-print_abs [] f = refl
is_abs-print_abs (name ∷ names) f = refl

pub clean-print_abs :
    (names : List Bytes) → All IsName names → clean (print_abs names) ≡ print_abs names
unfolding clean
clean-print_abs names h = rw (
  ap is_abs (sym (append-nil (print_abs names))) ∙ is_abs-print_abs names [],
  foldl-push-print_abs names h,
  reverse-reverse,
)

join-eq-clean :
    (names : List Bytes) (f : Bytes)
    → join (print_abs names) f ≡ clean (print_abs names ++ (slash ∷ f))
unfolding join
join-eq-clean [] f = refl
join-eq-clean (name ∷ names) f = refl

-- Whatever stands behind a clean absolute path, `Join` is the path that it leads to.
pub join-print_abs :
    (names : List Bytes) (f : Bytes)
    → All IsName names
    → join (print_abs names) f ≡ print_abs (resolve names f)
join-print_abs names f h = join-eq-clean names f ∙ opened
  where
    opened : clean (print_abs names ++ (slash ∷ f)) ≡ print_abs (resolve names f)
    opened =
        unfold clean in
        rw (is_abs-print_abs names (slash ∷ f), split-append_slash (print_abs names) f)
          (rw (foldl-append, foldl-push-print_abs names h))

pub resolve-IsName :
    (names : List Bytes) (f : Bytes) → All IsName names → All IsName (resolve names f)
resolve-IsName names f h =
    All-reverse IsName _ (
      foldl-push-IsName (split f) (reverse names) (All-reverse IsName names h) (split-HasNoSlash f))

pub resolve_name : (names : List Bytes) (f : Bytes) → IsName f → resolve names f ≡ names ++ (f ∷ [])
resolve_name names f h =
    rw (split_name f h.no_slash, push_name (reverse names) f h)
      (reverse-cons f (reverse names) ∙ rw reverse-reverse)
