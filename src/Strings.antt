-- ===== src/Strings.antt =====
-- What the program uses of the packages `strings` and `fmt`, on ASCII text: other bytes count as no
-- space and have no lower case.
use ssnproj.Base.{
  ℕ, ◌+◌, ◌/◌, ◌%◌, ◌≡◌, refl, [], ◌∷◌, List, ◌&&◌, ◌||◌, Bool, false, Bool-cases, ◌⊎◌, inl, inr,
  ltb, leb, ◌==◌, if◌then◌else◌,
}
use ssnproj.Bytes.BigEndian.{Bytes}
use Prim.Native.String.{String}
use Prim.Native.Char.{code}

-- A Go string constant by its bytes, in UTF-8.
abbrev utf8 : ℕ → Bytes → Bytes
utf8 c rest =
    if ltb c 0x80
    then c ∷ rest
    else (if ltb c 0x800
        then (0xC0 + c / 64) ∷ (0x80 + c % 64) ∷ rest
        else (0xE0 + c / 4096) ∷ (0x80 + c / 64 % 64) ∷ (0x80 + c % 64) ∷ rest)

abbrev pub utf8_text : String → Bytes
utf8_text String.[] = []
utf8_text (String.◌∷◌ c s) = utf8 (code c) (utf8_text s)

abbrev pub is_space : ℕ → Bool
is_space c = (leb 9 c && leb c 13) || (c == 32)

trim_left : Bytes → Bytes
trim_left [] = []
trim_left (c ∷ cs) = if is_space c then trim_left cs else c ∷ cs

abbrev keep_unless_space : ℕ → Bytes → Bytes
keep_unless_space c [] = if is_space c then [] else c ∷ []
keep_unless_space c (d ∷ cs) = c ∷ d ∷ cs

trim_right : Bytes → Bytes
trim_right [] = []
trim_right (c ∷ cs) = keep_unless_space c (trim_right cs)

-- `strings.TrimSpace`
unfoldable pub trim_space : Bytes → Bytes
unfolding trim_left trim_right
trim_space s = trim_right (trim_left s)

-- `c` in front of the first word, if the next byte is part of it, or as a word of its own.
abbrev to_word : ℕ → Bytes → List Bytes → List Bytes
to_word c [] words = (c ∷ []) ∷ words
to_word c (d ∷ _) [] = (c ∷ []) ∷ []
to_word c (d ∷ _) (word ∷ words) =
    if is_space d then (c ∷ []) ∷ word ∷ words else (c ∷ word) ∷ words

-- `strings.Fields`
unfoldable pub fields : Bytes → List Bytes
fields [] = []
fields (c ∷ cs) = let rest = fields cs in if is_space c then rest else to_word c cs rest

abbrev lower : ℕ → ℕ
lower c = if leb b'A' c && leb c b'Z' then c + 32 else c

-- `strings.ToLower`
unfoldable pub to_lower : Bytes → Bytes
to_lower [] = []
to_lower (c ∷ cs) = lower c ∷ to_lower cs

-- What has a byte that is no space has a field.
abbrev pub HasWord : Bytes → Type 0
HasWord [] = ⊥
HasWord (c ∷ cs) = is_space c ≡ false

to_word-cons :
    (c : ℕ) (cs : Bytes) (words : List Bytes)
    → (w : Bytes) × (ws : List Bytes) × (to_word c cs words ≡ w ∷ ws)
to_word-cons c [] words = (c ∷ [], words, refl)
to_word-cons c (d ∷ cs) [] = (c ∷ [], [], refl)
to_word-cons c (d ∷ cs) (word ∷ words) = elim (Bool-cases (is_space d)) [
  | inl space ↦ (c ∷ [], word ∷ words, rw space)
  | inr part ↦ (c ∷ word, words, rw part)
]

pub fields-cons : (s : Bytes) → HasWord s → (w : Bytes) × (ws : List Bytes) × (fields s ≡ w ∷ ws)
unfolding fields
fields-cons [] h = absurd h
fields-cons (c ∷ cs) h = rw h (to_word-cons c cs (fields cs))

trim_left-HasWord : (s : Bytes) → (trim_left s ≡ []) ⊎ HasWord (trim_left s)
unfolding trim_left
trim_left-HasWord [] = inl refl
trim_left-HasWord (c ∷ cs) = elim (Bool-cases (is_space c)) [
  | inl space ↦ rw space (trim_left-HasWord cs)
  | inr part ↦ rw part (inr part)
]

keep_unless_space-HasWord :
    (c : ℕ) (s : Bytes) → is_space c ≡ false → HasWord (keep_unless_space c s)
keep_unless_space-HasWord c [] h = rw h h
keep_unless_space-HasWord c (d ∷ s) h = h

trim_right-HasWord : (s : Bytes) → HasWord s → HasWord (trim_right s)
unfolding trim_right
trim_right-HasWord [] h = absurd h
trim_right-HasWord (c ∷ cs) h = keep_unless_space-HasWord c (trim_right cs) h

-- A trimmed text is empty or begins with a byte that is no space.
pub trim_space-HasWord : (s : Bytes) → (trim_space s ≡ []) ⊎ HasWord (trim_space s)
unfolding trim_space
trim_space-HasWord s = elim (trim_left-HasWord s) [
  | inl empty ↦ inl (rw empty)
  | inr word ↦ inr (trim_right-HasWord (trim_left s) word)
]
