-- ===== src/Flags/RoundTrip.antt =====
-- Arguments of the form `-name=value`.
use ssnproj.Base.{◌≡◌, ◌≢◌, refl, ap, ◌∙◌, [], ◌∷◌, List, ◌++◌, All, arith, Option, some, map}
use ssnproj.Bytes.BigEndian.{Bytes}
use ssnproj.Flags.{
  FlagKind, string_flag, parsed, dash, equals, flag_named, split_value, read_name, read_arg, assign,
  parse_flags, on_reading, with_value, exited,
}

abbrev pub spelled : Bytes × Bytes → Bytes
spelled (name, value) = dash ∷ (name ++ (equals ∷ value))

-- The name of a flag can be written behind one dash, with a value behind it.
abbrev pub IsFlagName : Bytes → Type 0
IsFlagName [] = ⊥
IsFlagName (c ∷ cs) = (c ≢ dash) × (c ≢ equals) × All (λ d. d ≢ equals) cs

split_value-append :
    (name value : Bytes)
    → All (λ d. d ≢ equals) name
    → split_value (name ++ (equals ∷ value)) ≡ (name, some value)
unfolding split_value
split_value-append [] value h = refl
split_value-append (c ∷ name) value (hc, h) = ground (arith, split_value-append name value h)

read_arg-spelled :
    (name value : Bytes)
    → IsFlagName name
    → read_arg (spelled (name, value)) ≡ flag_named name (some value)
unfolding read_arg read_name
read_arg-spelled [] value h = absurd h
read_arg-spelled (c ∷ []) value (h1, h2, h) = ground (arith, split_value-append [] value h)
read_arg-spelled (c ∷ d ∷ cs) value (h1, h2, h) =
    ground (arith, split_value-append (d ∷ cs) value h)

module _ (lookup_flag : Bytes → Option FlagKind) where
  -- The flags in front of it, then the rest.
  parse_flags-spelled :
      (name value : Bytes) (args : List Bytes)
      → IsFlagName name
      → lookup_flag name ≡ some string_flag
      → parse_flags lookup_flag (spelled (name, value) ∷ args)
        ≡ assign name value (parse_flags lookup_flag args)
  unfolding parse_flags
  parse_flags-spelled name value [] h known =
      ap (on_reading lookup_flag (parsed []) (λ _. exited 2)) (read_arg-spelled name value h)
      ∙ ap (λ k. with_value name value k (parsed [])) known
  parse_flags-spelled name value (next ∷ args) h known =
      ap
        (on_reading lookup_flag (parse_flags lookup_flag (next ∷ args))
          (λ n. assign n next (parse_flags lookup_flag args)))
        (read_arg-spelled name value h)
      ∙ ap (λ k. with_value name value k (parse_flags lookup_flag (next ∷ args))) known

  -- String flags that are written `-name=value` are all assigned, in order, whatever their values.
  pub parse_flags-map-spelled :
      (values : List (Bytes × Bytes))
      → All (λ (v : Bytes × Bytes). IsFlagName v.0 × (lookup_flag v.0 ≡ some string_flag)) values
      → parse_flags lookup_flag (map spelled values) ≡ parsed values
  unfolding parse_flags
  parse_flags-map-spelled [] h = refl
  parse_flags-map-spelled ((name, value) ∷ values) ((h, known), hs) =
      parse_flags-spelled name value (map spelled values) h known
      ∙ ap (assign name value) (parse_flags-map-spelled values hs)
