-- ===== src/Base/Texts.antt =====
-- Text: equality, prefixes, decimal numbers.
use Prim.Native.Nat.{ℕ, zero, suc, ◌/◌, ◌%◌}
use Prim.Native.String.{String, len, slice}
use Prim.Native.String.{◌++◌ as append}
use mathlib.Core.Path.{◌≡◌, refl}
use mathlib.Core.Logic.{◌≢◌}
use mathlib.Core.Bool.{Bool, true, false, ◌&&◌, ◌||◌}
use Prim.Native.Char.{code}
use mathlib.Core.Option.{Option, none, some}
use native.Mathlib.Omega.{arith}
use text.Mathlib.Text.{starts_with, find?}
use text.Mathlib.Text.{◌==◌ as text_eq}
use text.Mathlib.TextEquality.{eq_iff}
use text.Mathlib.TextPositions.{eq_refl}
use agentic_development_fram.Base.Bools.{nat_eq, ltb, leb, is_some, if◌then◌else◌}

infix 50 ◌==◌
abbrev pub ◌==◌ : String → String → Bool
s == t = text_eq s t

infixr 65 ◌<>◌
abbrev pub ◌<>◌ : String → String → String
s <> t = append s t

pub eq_of_== : (s t : String) → (s == t) ≡ true → s ≡ t
eq_of_== s t h = (eq_iff s t).0 h

pub ==-self : (s : String) → (s == s) ≡ true
==-self s = eq_refl s

pub ne_of_== : (s t : String) → (s == t) ≡ false → s ≢ t
ne_of_== s t h e = ground (arith, (eq_iff s t).1 e)

-- `==` of two optional texts
abbrev pub text_option_eq : Option String → Option String → Bool
text_option_eq none none = true
text_option_eq (some s) (some t) = s == t
text_option_eq _ _ = false

-- `str::strip_prefix`
abbrev pub strip_prefix : String → String → Option String
strip_prefix s p = if starts_with s p then some (slice s (len p) (len s)) else none

-- `str::contains` of a one-character text
abbrev pub contains : String → String → Bool
contains s p = is_some (find? s p)

digit : ℕ → String
digit zero = "0"
digit (suc zero) = "1"
digit (suc (suc zero)) = "2"
digit (suc (suc (suc zero))) = "3"
digit (suc (suc (suc (suc zero)))) = "4"
digit (suc (suc (suc (suc (suc zero))))) = "5"
digit (suc (suc (suc (suc (suc (suc zero)))))) = "6"
digit (suc (suc (suc (suc (suc (suc (suc zero))))))) = "7"
digit (suc (suc (suc (suc (suc (suc (suc (suc zero)))))))) = "8"
digit (suc (suc (suc (suc (suc (suc (suc (suc (suc n))))))))) = "9"

-- A number has at most as many digits as its value plus one.
decimal_digits : ℕ → ℕ → String
decimal_digits zero n = ""
decimal_digits (suc fuel) n =
    let rest = decimal_digits fuel (n / 10) <> digit (n % 10) in if ltb n 10 then digit n else rest

-- A number as `format!` prints it.
unfoldable pub decimal : ℕ → String
unfolding decimal_digits digit
decimal n = decimal_digits (suc n) n

decimal_example : decimal 1203 ≡ "1203"
unfolding decimal
decimal_example = refl

is_hexdigit : ℕ → Bool
is_hexdigit c = leb b'0' c && leb c b'9' || (leb b'a' c && leb c b'f' || leb b'A' c && leb c b'F')

all_hexdigits : String → Bool
all_hexdigits String.[] = true
all_hexdigits (String.◌∷◌ c s) = is_hexdigit (code c) && all_hexdigits s

-- `hex.len() == 64 && hex.bytes().all(|byte| byte.is_ascii_hexdigit())`: a byte of a character
-- that is not ASCII is no digit, and neither is the character's number.
unfoldable pub is_sha256_hex : String → Bool
unfolding all_hexdigits is_hexdigit
is_sha256_hex hex = nat_eq (len hex) 64 && all_hexdigits hex
