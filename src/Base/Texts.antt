-- ===== src/Base/Texts.antt =====
-- What the code uses of texts: white space, trimming, lengths in UTF-16 units, slices and searches.
use Prim.Native.Nat.{ℕ, zero, suc, ◌+◌, ◌/◌, ◌%◌}
use Prim.Native.Char.{code}
use Prim.Native.String.{String, slice, ◌++◌ as str_append}
use mathlib.Core.Bool.{Bool, true, false, ◌&&◌, ◌||◌}
use text.Mathlib.Text.{starts_with}
use dsh_ai_coding.Base.Tests.{leb, ltb, ◌==◌, if◌then◌else◌}

-- The characters that `trim` removes: white space and line ends.
abbrev pub is_white : ℕ → Bool
is_white c =
    (leb 9 c && leb c 13)
    || (c == 32)
    || (c == 160)
    || (c == 5_760)
    || (leb 8_192 c && leb c 8_202)
    || (c == 8_232)
    || (c == 8_233)
    || (c == 8_239)
    || (c == 8_287)
    || (c == 12_288)
    || (c == 65_279)

-- `s.trim().length === 0`.
abbrev pub is_blank : String → Bool
is_blank String.[] = true
is_blank (String.◌∷◌ c s) = is_white (code c) && is_blank s

abbrev pub is_empty_text : String → Bool
is_empty_text String.[] = true
is_empty_text (String.◌∷◌ c s) = false

abbrev pub trim_end : String → String
trim_end String.[] = String.[]
trim_end (String.◌∷◌ c s) =
    let t = trim_end s in if is_white (code c) && is_empty_text t then String.[] else String.◌∷◌ c t

abbrev pub trim_start : String → String
trim_start String.[] = String.[]
trim_start (String.◌∷◌ c s) =
    let t = trim_start s in if is_white (code c) then t else String.◌∷◌ c s

abbrev pub trim : String → String
trim s = trim_end (trim_start s)

-- `s.length`: a character beyond the basic plane counts twice.
abbrev pub utf16_length : String → ℕ
utf16_length String.[] = 0
utf16_length (String.◌∷◌ c s) = (if ltb (code c) 65_536 then 1 else 2) + utf16_length s

-- `s.slice(0, n)` of an ASCII text.
abbrev pub take_text : ℕ → String → String
take_text zero s = String.[]
take_text (suc n) String.[] = String.[]
take_text (suc n) (String.◌∷◌ c s) = String.◌∷◌ c (take_text n s)

-- `s.includes(t)`.
abbrev pub includes : String → String → Bool
includes String.[] t = is_empty_text t
includes (String.◌∷◌ c s) t = starts_with (String.◌∷◌ c s) t || includes s t

-- Whether a character of the text passes the test.
abbrev pub any_char : (ℕ → Bool) → String → Bool
any_char p String.[] = false
any_char p (String.◌∷◌ c s) = p (code c) || any_char p s

abbrev digit : ℕ → String
digit n = slice "0123456789" n (n + 1)

abbrev digits : ℕ → ℕ → String → String
digits zero n rest = rest
digits (suc fuel) n rest =
    let more = digits fuel (n / 10) (str_append (digit (n % 10)) rest) in
    if ltb n 10 then str_append (digit n) rest else more

-- `${n}`: the digits of a number, which are fewer than its successor.
abbrev pub print : ℕ → String
print n = digits (suc n) n String.[]
