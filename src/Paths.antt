-- ===== src/Paths.antt =====
-- What the program uses of `path/filepath` and `strings`, on Unix: lexical functions on paths, by
-- the rules that their documentation states. A path is a list of bytes.
pub mod Names
pub mod Split
pub mod Clean
pub mod Absolute
pub mod Within
use ssnproj.Base.{ℕ, [], ◌∷◌, ◌++◌, List, Bool, true, false, ◌&&◌, ◌||◌, ◌==◌, if◌then◌else◌}
use ssnproj.Base.{Result, ok, err, ◌>>=◌}
use ssnproj.Bytes.BigEndian.{Bytes}
use mathlib.Core.List.{foldl, reverse}

abbrev pub slash : ℕ
slash = b'/'

abbrev pub dot : Bytes
dot = b'.' ∷ []

abbrev pub dot_dot : Bytes
dot_dot = b'.' ∷ b'.' ∷ []

-- `==` on strings
unfoldable pub bytes_eq : Bytes → Bytes → Bool
bytes_eq [] [] = true
bytes_eq [] (y ∷ ys) = false
bytes_eq (x ∷ xs) [] = false
bytes_eq (x ∷ xs) (y ∷ ys) = x == y && bytes_eq xs ys

-- `strings.HasPrefix`, with the prefix first
unfoldable pub has_prefix : Bytes → Bytes → Bool
has_prefix [] ys = true
has_prefix (x ∷ xs) [] = false
has_prefix (x ∷ xs) (y ∷ ys) = x == y && has_prefix xs ys

-- `filepath.IsAbs`
unfoldable pub is_abs : Bytes → Bool
is_abs [] = false
is_abs (c ∷ s) = c == slash

abbrev cons_first : ℕ → List Bytes → List Bytes
cons_first c [] = (c ∷ []) ∷ []
cons_first c (x ∷ xs) = (c ∷ x) ∷ xs

-- The elements of a path, empty ones too.
unfoldable pub split : Bytes → List Bytes
split [] = [] ∷ []
split (c ∷ s) = let rest = split s in if c == slash then [] ∷ rest else cons_first c rest

-- `..` takes away the element in front of it; at the root it is dropped, and at the front of a
-- relative path it stays.
abbrev pub go_up : Bool → List Bytes → List Bytes
go_up true [] = []
go_up false [] = dot_dot ∷ []
go_up rooted (top ∷ rest) = if bytes_eq top dot_dot then dot_dot ∷ top ∷ rest else rest

-- One element of a path, with those already read, the last one first.
unfoldable pub push : Bool → List Bytes → Bytes → List Bytes
unfolding bytes_eq
push rooted stack name =
    if bytes_eq name [] || bytes_eq name dot
    then stack
    else if bytes_eq name dot_dot
    then go_up rooted stack
    else name ∷ stack

-- Each element behind a slash.
abbrev pub segments : List Bytes → Bytes
segments [] = []
segments (name ∷ names) = slash ∷ (name ++ segments names)

abbrev pub print_abs : List Bytes → Bytes
print_abs [] = slash ∷ []
print_abs (name ∷ names) = segments (name ∷ names)

abbrev pub print_rel : List Bytes → Bytes
print_rel [] = dot
print_rel (name ∷ names) = name ++ segments names

-- `filepath.Clean`
unfoldable pub clean : Bytes → Bytes
clean path =
    let names = reverse (foldl (push (is_abs path)) [] (split path)) in
    if is_abs path then print_abs names else print_rel names

-- `filepath.Join` of two elements: empty ones are left out.
unfoldable pub join : Bytes → Bytes → Bytes
join [] [] = []
join [] (c ∷ s) = clean (c ∷ s)
join (c ∷ s) t = clean ((c ∷ s) ++ (slash ∷ t))

-- `filepath.Abs`, with what `os.Getwd` answers.
unfoldable pub abs_path : Result Bytes → Bytes → Result Bytes
abs_path getwd path = if is_abs path then ok (clean path) else getwd >>= λ wd. ok (join wd path)

-- The last element that is not empty, if there is one.
abbrev last_name : Bytes → List Bytes → Bytes
last_name default [] = default
last_name default ([] ∷ names) = last_name default names
last_name default ((c ∷ name) ∷ names) = last_name (c ∷ name) names

-- `Base`
unfoldable pub base : Bytes → Bytes
base [] = dot
base (c ∷ path) = last_name (slash ∷ []) (split (c ∷ path))
