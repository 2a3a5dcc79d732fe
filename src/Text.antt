-- ===== src/Text.antt =====
-- The two `str` methods that the gateway cleans its identifiers with. `strip` removes the code
-- points that Python's `str.strip` removes; `lower` changes ASCII letters only, which is what the
-- hexadecimal digests and the category names that the code lowers are made of.
use Prim.Native.Char.{Char, code}
use Prim.Native.String.{[], ◌∷◌}
use mandate_gateway.Base.{
  ℕ, zero, suc, ◌-◌, String, ◌≡◌, refl, Bool, true, false, not, ◌&&◌, ◌||◌, arith, ltb, leb, ◌==◌,
  if◌then◌else◌, Option, none, some, get_or,
}

is_space_code : ℕ → Bool
is_space_code c =
    leb 9 c && leb c 13
    || leb 28 c && leb c 32
    || c == 133
    || c == 160
    || c == 5760
    || leb 8192 c && leb c 8202
    || c == 8232
    || c == 8233
    || c == 8239
    || c == 8287
    || c == 12288

is_space : Char → Bool
unfolding is_space_code
is_space c = is_space_code (code c)

-- `not s`, for a text
abbrev pub is_empty : String → Bool
is_empty [] = true
is_empty (c ∷ s) = false

lstrip : String → String
lstrip [] = []
lstrip (c ∷ s) = let rest = lstrip s in if is_space c then rest else c ∷ s

rstrip : String → String
rstrip [] = []
rstrip (c ∷ s) = let rest = rstrip s in if is_space c && is_empty rest then [] else c ∷ rest

unfoldable pub strip : String → String
unfolding lstrip rstrip is_space
strip s = rstrip (lstrip s)

rstrip_idem : (s : String) → rstrip (rstrip s) ≡ rstrip s
unfolding rstrip
rstrip_idem [] = refl
rstrip_idem (c ∷ s) = ground (arith, rstrip_idem s)

-- the first character is no space
starts_clean : String → Bool
starts_clean [] = true
starts_clean (c ∷ s) = not (is_space c)

starts_clean-lstrip : (s : String) → starts_clean (lstrip s) ≡ true
unfolding lstrip starts_clean
starts_clean-lstrip [] = refl
starts_clean-lstrip (c ∷ s) = ground (arith, starts_clean-lstrip s)

starts_clean-rstrip : (s : String) → starts_clean s ≡ true → starts_clean (rstrip s) ≡ true
unfolding rstrip starts_clean
starts_clean-rstrip [] h = refl
starts_clean-rstrip (c ∷ s) h = ground arith

lstrip_clean : (s : String) → starts_clean s ≡ true → lstrip s ≡ s
unfolding lstrip starts_clean
lstrip_clean [] h = refl
lstrip_clean (c ∷ s) h = ground arith

-- Stripping twice is stripping once.
pub strip_idem : (s : String) → strip (strip s) ≡ strip s
unfolding strip
strip_idem s =
    rw (lstrip_clean (rstrip (lstrip s)) (starts_clean-rstrip (lstrip s) (starts_clean-lstrip s)))
      (rstrip_idem (lstrip s))

-- `len(s)`
unfoldable pub text_length : String → ℕ
text_length [] = 0
text_length (c ∷ s) = suc (text_length s)

-- `not s or not s.strip()`
abbrev pub is_blank : String → Bool
is_blank s = is_empty s || is_empty (strip s)

-- The `i`-th character of a text, or `d` past its end.
char_or : String → ℕ → Char → Char
char_or [] i d = d
char_or (c ∷ s) zero d = c
char_or (c ∷ s) (suc i) d = char_or s i d

lower_char : Char → Char
unfolding char_or
lower_char c =
    if leb b'A' (code c) && leb (code c) b'Z'
    then char_or "abcdefghijklmnopqrstuvwxyz" (code c - b'A') c
    else c

-- `s.lower()`
unfoldable pub lower : String → String
unfolding lower_char
lower [] = []
lower (c ∷ s) = lower_char c ∷ lower s

-- `s <= t`, by the code points
unfoldable pub text_le : String → String → Bool
text_le [] t = true
text_le (c ∷ s) [] = false
text_le (c ∷ s) (d ∷ t) = ltb (code c) (code d) || code c == code d && text_le s t

-- `s[len(p):] if s.startswith(p) else s`
unfoldable pub without_prefix : String → String → String
without_prefix p s = get_or (after p s) s
  where
    after : String → String → Option String
    after [] s = some s
    after (c ∷ p) [] = none
    after (c ∷ p) (d ∷ s) = let rest = after p s in if code c == code d then rest else none

-- `s[:n]`
unfoldable pub take_text : ℕ → String → String
take_text zero s = []
take_text (suc n) [] = []
take_text (suc n) (c ∷ s) = c ∷ take_text n s

-- a hexadecimal digit, of either case
unfoldable pub is_hex_digit : Char → Bool
is_hex_digit c =
    leb b'0' (code c) && leb (code c) b'9'
    || leb b'a' (code c) && leb (code c) b'f'
    || leb b'A' (code c) && leb (code c) b'F'

-- every character is a hexadecimal digit
unfoldable pub all_hex : String → Bool
unfolding is_hex_digit
all_hex [] = true
all_hex (c ∷ s) = is_hex_digit c && all_hex s

lower_example : lower "Ab9Z" ≡ "ab9z"
unfolding lower
lower_example = refl

strip_example : strip "  a b " ≡ "a b"
unfolding strip
strip_example = refl
