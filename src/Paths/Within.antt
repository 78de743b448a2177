-- ===== src/Paths/Within.antt =====
-- When one clean absolute path starts with another and a slash.
use ssnproj.Base.{[], ◌∷◌, ◌++◌, List, ◌≡◌, refl, sym, ap, ◌∙◌, All}
use ssnproj.Base.{true, append_assoc}
use ssnproj.Bytes.BigEndian.{Bytes}
use ssnproj.Paths.{slash, has_prefix, split, segments, print_abs}
use ssnproj.Paths.Names.{has_prefix→append, has_prefix-append}
use ssnproj.Paths.Split.{split-append_segments, split-append_slash}
use ssnproj.Paths.Clean.{IsName, All-HasNoSlash, split-slash}
use mathlib.Core.Path.{subst}

split-segments :
    (name : Bytes) (names : List Bytes)
    → All IsName (name ∷ names)
    → split (segments (name ∷ names)) ≡ [] ∷ name ∷ names
split-segments name names (hn, h) =
    split-slash (name ++ segments names)
    ∙ ap (◌∷◌ []) (split-append_segments name names hn.no_slash (All-HasNoSlash names h))

tail_of : List Bytes → List Bytes
tail_of [] = []
tail_of (x ∷ xs) = xs

segments-append : (xs ys : List Bytes) → segments (xs ++ ys) ≡ segments xs ++ segments ys
segments-append [] ys = refl
segments-append (x ∷ xs) ys =
    ap (◌∷◌ slash) (rw (segments-append xs ys) (sym (append_assoc x (segments xs) (segments ys))))

split_root : split (slash ∷ []) ≡ [] ∷ [] ∷ []
unfolding split
split_root = refl

-- The elements behind the prefix are those that are left over.
pub within :
    (rs ds : List Bytes)
    → All IsName rs
    → All IsName ds
    → has_prefix (print_abs rs ++ (slash ∷ [])) (print_abs ds) ≡ true
    → (cs : List Bytes) × (ds ≡ rs ++ cs)
within [] ds hr hd e = (ds, refl)
within (r ∷ rs) [] hr hd e =
    let (t, same) = has_prefix→append _ _ e in
    let parts : [] ∷ [] ∷ [] ≡ ([] ∷ r ∷ rs) ++ split t =
      sym split_root
      ∙ ap split (same ∙ append_assoc (segments (r ∷ rs)) (slash ∷ []) t)
      ∙ split-append_slash (segments (r ∷ rs)) t
      ∙ ap (λ (l : List Bytes). l ++ split t) (split-segments r rs hr) in
    absurd (hr.0.ne_empty (cc parts))
within (r ∷ rs) (d ∷ ds) hr hd e =
    let (t, same) = has_prefix→append _ _ e in
    let parts : [] ∷ d ∷ ds ≡ ([] ∷ r ∷ rs) ++ split t =
      sym (split-segments d ds hd)
      ∙ ap split (same ∙ append_assoc (segments (r ∷ rs)) (slash ∷ []) t)
      ∙ split-append_slash (segments (r ∷ rs)) t
      ∙ ap (λ (l : List Bytes). l ++ split t) (split-segments r rs hr) in
    (split t, unfold tail_of in ap tail_of parts)

-- An entry below a directory other than the root has the directory and a slash in front.
pub has_prefix-print_abs :
    (r : Bytes) (rs : List Bytes) (c : Bytes) (cs : List Bytes)
    → has_prefix (print_abs (r ∷ rs) ++ (slash ∷ [])) (print_abs ((r ∷ rs) ++ (c ∷ cs))) ≡ true
has_prefix-print_abs r rs c cs =
    let root : Bytes = segments (r ∷ rs) in
    let longer : segments ((r ∷ rs) ++ (c ∷ cs)) ≡ (root ++ (slash ∷ [])) ++ (c ++ segments cs) =
      segments-append (r ∷ rs) (c ∷ cs) ∙ sym (append_assoc root (slash ∷ []) (c ++ segments cs)) in
    subst (λ s. has_prefix (root ++ (slash ∷ [])) s ≡ true) (sym longer)
      (has_prefix-append (root ++ (slash ∷ [])) (c ++ segments cs))

-- Distinct lists of names print as distinct paths.
pub print_abs-injective :
    (xs ys : List Bytes) → All IsName xs → All IsName ys → print_abs xs ≡ print_abs ys → xs ≡ ys
print_abs-injective [] [] hx hy e = refl
print_abs-injective [] (y ∷ ys) hx hy e =
    absurd (hy.0.ne_empty (cc (sym split_root ∙ ap split e ∙ split-segments y ys hy)))
print_abs-injective (x ∷ xs) [] hx hy e =
    absurd (hx.0.ne_empty (cc (sym split_root ∙ ap split (sym e) ∙ split-segments x xs hx)))
print_abs-injective (x ∷ xs) (y ∷ ys) hx hy e =
    unfold tail_of in
    ap tail_of (sym (split-segments x xs hx) ∙ ap split e ∙ split-segments y ys hy)
