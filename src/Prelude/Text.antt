-- ===== src/Prelude/Text.antt =====
-- Text as the program's `String`: code points, UTF-8 bytes, decimal numbers.
use Prim.Native.Nat.{ℕ, zero, suc, ◌+◌, ◌/◌, ◌%◌, ◌≤◌}
use Prim.Native.Char.{Char, code}
use Prim.Native.String.len
use native.Mathlib.Omega.{arith}
use text.Mathlib.TextPositions.{len_utf8-pos}
use Prim.Native.String.{String, len, ◌++◌}
use mathlib.Core.Path.{◌≡◌, refl, ap}
use mathlib.Core.Bool.{Bool, false, ◌&&◌, ◌||◌}
use mathlib.Core.List
use mathlib.Core.List.{List, [], ◌∷◌}
use ascension_watchdog.Prelude.Tests.{ltb, leb, ◌==◌, if◌then◌else◌}

abbrev pub codes : String → List ℕ
codes String.[] = []
codes (String.◌∷◌ c s) = code c ∷ codes s

-- The UTF-8 bytes of one code point.
abbrev pub utf8 : ℕ → List ℕ
utf8 c =
    if ltb c 0x80
    then c ∷ []
    else if ltb c 0x800
    then (0xc0 + c / 0x40) ∷ (0x80 + c % 0x40) ∷ []
    else if ltb c 0x10000
    then (0xe0 + c / 0x1000) ∷ (0x80 + c / 0x40 % 0x40) ∷ (0x80 + c % 0x40) ∷ []
    else (0xf0 + c / 0x40000)
      ∷ (0x80 + c / 0x1000 % 0x40)
      ∷ (0x80 + c / 0x40 % 0x40)
      ∷ (0x80 + c % 0x40)
      ∷ []

abbrev utf8_all : List ℕ → List ℕ
utf8_all [] = []
utf8_all (c ∷ cs) = List.◌++◌ (utf8 c) (utf8_all cs)

-- `s.as_bytes()`; `s.len()` is its length.
abbrev pub as_bytes : String → List ℕ
as_bytes s = utf8_all (codes s)

-- `s.len()`, in bytes.
abbrev pub byte_len : String → ℕ
byte_len s = len s

abbrev any_code : (ℕ → Bool) → String → Bool
any_code p String.[] = false
any_code p (String.◌∷◌ c s) = p (code c) || any_code p s

-- `char::is_control`: the code points of category Cc.
abbrev is_control : ℕ → Bool
is_control c = ltb c 32 || leb 127 c && leb c 159

abbrev pub has_control : String → Bool
has_control s = any_code is_control s

-- A byte 0 in the UTF-8 form is the code point 0.
abbrev pub has_zero : String → Bool
has_zero s = any_code (λ c. c == 0) s

-- SQLite's `substr(text, 1, n)`: the first `n` characters.
abbrev pub substr : ℕ → String → String
substr zero s = String.[]
substr (suc n) String.[] = String.[]
substr (suc n) (String.◌∷◌ c s) = String.◌∷◌ c (substr n s)

abbrev digit : ℕ → String
digit d =
    if d == 0
    then "0"
    else if d == 1
    then "1"
    else if d == 2
    then "2"
    else if d == 3
    then "3"
    else if d == 4
    then "4"
    else if d == 5
    then "5"
    else if d == 6
    then "6"
    else if d == 7
    then "7"
    else if d == 8
    then "8"
    else "9"

-- Decimal digits in front of `out`; 20 rounds reach every `u64`.
decimal : ℕ → ℕ → String → String
decimal zero n out = out
decimal (suc rounds) n out =
    let more = decimal rounds (n / 10) (digit (n % 10) ++ out) in if n == 0 then out else more

-- `n.to_string()` of an unsigned integer of at most 64 bits.
unfoldable pub to_string : ℕ → String
unfolding decimal
to_string n = if n == 0 then "0" else decimal 20 n String.[]

to_string_max : to_string 18446744073709551615 ≡ "18446744073709551615"
unfolding to_string
to_string_max = refl

-- What is read of a text with one character more than the bound, where it is within the bound, is
-- the whole text.
longer : (c : Char) (s : String) → 1 + byte_len s ≤ byte_len (String.◌∷◌ c s)
longer c s = let (k, width) = len_utf8-pos c in omega (arith, len.cons c s, width)

pub substr-whole : (n : ℕ) (s : String) → byte_len (substr (suc n) s) ≤ n → substr (suc n) s ≡ s
substr-whole n String.[] h = refl
substr-whole zero (String.◌∷◌ c s) h = absurd (omega (arith, h, longer c String.[]))
substr-whole (suc n) (String.◌∷◌ c s) h =
    ap (λ t. String.◌∷◌ c t) (substr-whole n s (omega (arith, h, longer c (substr (suc n) s))))
