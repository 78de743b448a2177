-- ===== src/Flags.antt =====
-- What cmd/server/main.go and cmd/client/main.go use of the package `flag`: `Parse` of the
-- arguments behind the program's name, for string and Boolean flags.
pub mod RoundTrip
use ssnproj.Base.{
  ℕ, ◌≡◌, refl, [], ◌∷◌, List, ◌++◌, Bool, true, false, ◌||◌, ◌==◌, if◌then◌else◌, Option, none,
  some,
}
use ssnproj.Bytes.BigEndian.{Bytes}
use ssnproj.Paths.{bytes_eq}
use ssnproj.Server.World.{text}

pub data FlagKind : Type 0 where
  string_flag bool_flag : FlagKind

-- The assignments in order, or the exit of the process with a code: 0 after a call for help, and
-- 2 after an error.
pub data Parsed : Type 0 where
  parsed : List (Bytes × Bytes) → Parsed
  exited : ℕ → Parsed

abbrev pub dash : ℕ
dash = b'-'

abbrev pub equals : ℕ
equals = b'='

-- How an argument reads: as the end of the flags, as one that is not well formed, or as a flag with
-- its name and the value behind an equals sign, if there is one.
pub data Reading : Type 0 where
  no_flag end_mark malformed : Reading
  flag_named : Bytes → Option Bytes → Reading

-- The name up to the first equals sign, and what follows it.
abbrev add_to_name : ℕ → Bytes × Option Bytes → Bytes × Option Bytes
add_to_name c (name, value) = (c ∷ name, value)

unfoldable pub split_value : Bytes → Bytes × Option Bytes
split_value [] = ([], none)
split_value (c ∷ cs) =
    let rest = split_value cs in if c == equals then ([], some cs) else add_to_name c rest

-- A name begins neither with a dash nor with an equals sign.
unfoldable pub read_name : Bytes → Reading
read_name [] = malformed
read_name (c ∷ cs) =
    if (c == dash) || (c == equals)
    then malformed
    else (let (name, value) = split_value cs in flag_named (c ∷ name) value)

abbrev read_dashed : Bytes → Reading
read_dashed [] = no_flag
read_dashed (c ∷ []) = if c == dash then end_mark else read_name (c ∷ [])
read_dashed (c ∷ d ∷ cs) = if c == dash then read_name (d ∷ cs) else read_name (c ∷ d ∷ cs)

unfoldable pub read_arg : Bytes → Reading
read_arg [] = no_flag
read_arg (c ∷ cs) = if c == dash then read_dashed cs else no_flag

-- `strconv.ParseBool`
abbrev is_one_of : Bytes → List Bytes → Bool
is_one_of x [] = false
is_one_of x (y ∷ ys) = bytes_eq x y || is_one_of x ys

unfoldable pub parse_bool : Bytes → Option Bool
parse_bool value =
    if is_one_of value
      (text "1" ∷ text "t" ∷ text "T" ∷ text "TRUE" ∷ text "true" ∷ text "True" ∷ [])
    then some true
    else (if is_one_of value
          (text "0" ∷ text "f" ∷ text "F" ∷ text "FALSE" ∷ text "false" ∷ text "False" ∷ [])
        then some false
        else none)

abbrev pub assign : Bytes → Bytes → Parsed → Parsed
assign name value (parsed values) = parsed ((name, value) ∷ values)
assign name value (exited code) = exited code

-- An error in an earlier argument comes first.
abbrev assign_bool : Bytes → Bytes → Option Bool → Parsed → Parsed
assign_bool name value none rest = exited 2
assign_bool name value (some _) rest = assign name value rest

-- Without such a flag, `-help` and `-h` call for help.
abbrev undefined_flag : Bytes → Parsed
undefined_flag name =
    if bytes_eq name (text "help") || bytes_eq name (text "h") then exited 0 else exited 2

-- A flag with a value, and one without, which takes the next argument if it is a string flag.
abbrev with_value : Bytes → Bytes → Option FlagKind → Parsed → Parsed
with_value name value none rest = undefined_flag name
with_value name value (some string_flag) rest = assign name value rest
with_value name value (some bool_flag) rest = assign_bool name value (parse_bool value) rest

abbrev without_value : Bytes → Option FlagKind → Parsed → Parsed → Parsed
without_value name none rest taking_next = undefined_flag name
without_value name (some string_flag) rest taking_next = taking_next
without_value name (some bool_flag) rest taking_next = assign name (text "true") rest

module _ (lookup_flag : Bytes → Option FlagKind) where
  abbrev pub on_reading : Parsed → (Bytes → Parsed) → Reading → Parsed
  on_reading rest taking_next no_flag = parsed []
  on_reading rest taking_next end_mark = parsed []
  on_reading rest taking_next malformed = exited 2
  on_reading rest taking_next (flag_named name none) =
      without_value name (lookup_flag name) rest (taking_next name)
  on_reading rest taking_next (flag_named name (some value)) =
      with_value name value (lookup_flag name) rest

  unfoldable pub parse_flags : List Bytes → Parsed
  parse_flags [] = parsed []
  parse_flags (arg ∷ []) = on_reading (parsed []) (λ name. exited 2) (read_arg arg)
  parse_flags (arg ∷ next ∷ args) =
      let rest = parse_flags (next ∷ args) in
      let after_next = parse_flags args in
      on_reading rest (λ name. assign name next after_next) (read_arg arg)

-- The value that a flag has after the assignments: the last one, or the one it began with.
unfoldable pub value_of : Bytes → Bytes → List (Bytes × Bytes) → Bytes
value_of name default [] = default
value_of name default ((other, value) ∷ values) =
    value_of name (if bytes_eq other name then value else default) values
