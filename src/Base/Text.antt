-- ===== src/Base/Text.antt =====
-- Text: equality, and the case mappings of Python's `str` on ASCII letters.
use Prim.Native.Nat.{ℕ, ◌+◌, ◌-◌, ◌<◌, compare, Ordering}
use Prim.Native.Char.{Char, char, code, IsScalar}
use Prim.Native.String.{String}
use mathlib.Core.Path.{◌≡◌, refl}
use mathlib.Core.Bool.{Bool, true, false, not, ◌&&◌, ◌||◌}
use mathlib.Core.Logic.{dite, ◌≢◌}
use text.Mathlib.TextEquality.{eq_iff}
use native.Mathlib.Omega.{arith}
use native.Mathlib.Decide.{dec_lt}
pub use text.Mathlib.Text.{◌==◌}
use financial_control_engine.Base.Tests.{ltb, nat_eq, if◌then◌else◌}

-- `not s`: the empty text is false.
abbrev pub is_empty : String → Bool
is_empty s = s == ""

-- Texts that `==` tells apart differ.
pub text_ne : (s t : String) → (s == t) ≡ false → s ≢ t
text_ne s t h e = cc (h, (eq_iff s t).1 e)

compare-lt : (a b : ℕ) → a < b → compare a b ≡ Ordering.lt
compare-lt a b h = ground arith

pub below_surrogates_IsScalar : (n : ℕ) → n < 55296 → IsScalar n
below_surrogates_IsScalar n h = rw (compare-lt n 55296 h) tt

minus_32 : Char → Char
unfolding dec_lt
minus_32 c =
    dite (dec_lt (code c) 128)
      (λ h. char (code c - 32) (below_surrogates_IsScalar (code c - 32) (omega arith))) (λ _. c)

plus_32 : Char → Char
unfolding dec_lt
plus_32 c =
    dite (dec_lt (code c) 128)
      (λ h. char (code c + 32) (below_surrogates_IsScalar (code c + 32) (omega arith))) (λ _. c)

lower_code : Char → Char
unfolding plus_32
lower_code c = if ltb 64 (code c) && ltb (code c) 91 then plus_32 c else c

-- `str.lower()`
unfoldable pub lower : String → String
unfolding lower_code
lower String.[] = String.[]
lower (String.◌∷◌ c s) = String.◌∷◌ (lower_code c) (lower s)

upper_code : Char → Char
unfolding minus_32
upper_code c = if ltb 96 (code c) && ltb (code c) 123 then minus_32 c else c

-- `str.upper()`
unfoldable pub upper : String → String
unfolding upper_code
upper String.[] = String.[]
upper (String.◌∷◌ c s) = String.◌∷◌ (upper_code c) (upper s)

-- ASCII white space: tab to carriage return, the separators 28 to 31, and the blank.
abbrev is_space : Char → Bool
is_space c = (ltb 8 (code c) && ltb (code c) 14) || (ltb 27 (code c) && ltb (code c) 33)

lstrip : String → String
lstrip String.[] = String.[]
lstrip (String.◌∷◌ c s) = if is_space c then lstrip s else String.◌∷◌ c s

rstrip : String → String
rstrip String.[] = String.[]
rstrip (String.◌∷◌ c s) =
    let r = rstrip s in if is_space c && is_empty r then String.[] else String.◌∷◌ c r

-- `str.strip()`
unfoldable pub strip : String → String
unfolding lstrip rstrip
strip s = rstrip (lstrip s)

-- `s.startswith(p)`
unfoldable pub starts_with : String → String → Bool
starts_with String.[] s = true
starts_with (String.◌∷◌ c p) String.[] = false
starts_with (String.◌∷◌ c p) (String.◌∷◌ d s) = nat_eq (code c) (code d) && starts_with p s

-- `p in s`
unfoldable pub contains : String → String → Bool
unfolding starts_with
contains p String.[] = is_empty p
contains p (String.◌∷◌ c s) = starts_with p (String.◌∷◌ c s) || contains p s

contains_test : (contains "REFUND" "API_REFUND" && not (contains "REFUND" "PAYMENT")) ≡ true
unfolding contains
contains_test = refl

lower_test : lower "RazorPay_1Z" ≡ "razorpay_1z"
unfolding lower
lower_test = refl

upper_test : upper (strip "  inr 5\t") ≡ "INR 5"
unfolding upper strip
upper_test = refl
