-- ===== src/Prelude/Text.antt =====
-- What the program uses of Go's package strings. Case mapping is that of ASCII: the texts that the
-- program compares without case (reasons, kinds, categories) are ASCII.
use Prim.Native.Nat.{◌+◌, ◌-◌, ◌/◌, ◌%◌, ◌<◌, ℕ, zero, suc, Ordering}
use Prim.Native.Char.{Char, char, code, IsScalar}
use Prim.Native.String.{String, [], ◌∷◌, ◌++◌, compare}
use mathlib.Core.Bool.{Bool, true, false, ◌&&◌}
use mathlib.Core.Logic.{dite}
use mathlib.Core.List.{List}
use native.Mathlib.Omega.{arith}
use native.Mathlib.Decide.{dec_lt}
use text.Mathlib.Text.{◌==◌, find?, starts_with}
use kube_sre_mcp.Prelude.Int.{ℤ, pos, negsuc}
use kube_sre_mcp.Prelude.Tests.{is_some, leb, ltb, if◌then◌else◌}

pub IsScalar-of_lt : (n : ℕ) → n < 55296 → IsScalar n
IsScalar-of_lt n h = ground arith

-- the character with a number, or U+0000
pub ascii : ℕ → Char
unfolding dec_lt
ascii n = dite (dec_lt n 55296) (λ h. char n (IsScalar-of_lt n h)) (λ _. char 0 tt)

lower_char : Char → Char
unfolding ascii
lower_char c = if leb 65 (code c) && leb (code c) 90 then ascii (code c + 32) else c

upper_char : Char → Char
unfolding ascii
upper_char c = if leb 97 (code c) && leb (code c) 122 then ascii (code c - 32) else c

-- strings.ToLower
unfoldable pub to_lower : String → String
unfolding lower_char
to_lower [] = []
to_lower (c ∷ s) = lower_char c ∷ to_lower s

-- strings.ToUpper
unfoldable pub to_upper : String → String
unfolding upper_char
to_upper [] = []
to_upper (c ∷ s) = upper_char c ∷ to_upper s

-- strings.Contains
unfoldable pub contains : String → String → Bool
contains s t = is_some (find? s t)

-- strings.HasPrefix
abbrev pub has_prefix : String → String → Bool
has_prefix s t = starts_with s t

-- Go's `<` on strings: by bytes
unfoldable pub text_lt : String → String → Bool
text_lt s t = elim (compare s t) [ Ordering.lt ↦ true | _ ↦ false ]

-- strings.Join
unfoldable pub join : String → List String → String
join sep List.[] = ""
join sep (List.◌∷◌ s List.[]) = s
join sep (List.◌∷◌ s (List.◌∷◌ t ts)) = s ++ sep ++ join sep (List.◌∷◌ t ts)

-- strings.ReplaceAll of one character by another
unfoldable pub replace_char : ℕ → Char → String → String
replace_char old new [] = []
replace_char old new (c ∷ s) =
    (elim (Prim.Native.Nat.compare (code c) old) [ Ordering.eq ↦ new | _ ↦ c ])
    ∷ replace_char old new s

hex_digit : ℕ → Char
unfolding ascii
hex_digit n = ascii (if ltb n 10 then 48 + n else 87 + n)

-- hex.EncodeToString, of a list of bytes
unfoldable pub hex_encode : List ℕ → String
unfolding hex_digit
hex_encode List.[] = ""
hex_encode (List.◌∷◌ b bs) = hex_digit (b / 16) ∷ hex_digit (b % 16) ∷ hex_encode bs

-- the digits of a number, the last first, with fuel that is larger than the number
digits : ℕ → ℕ → String → String
unfolding hex_digit
digits zero n s = s
digits (suc fuel) n s =
    let more = digits fuel (n / 10) (hex_digit (n % 10) ∷ s) in
    if ltb n 10 then hex_digit n ∷ s else more

-- %d of a number that is not negative
unfoldable pub decimal : ℕ → String
unfolding digits
decimal n = digits (suc n) n ""

-- %d
unfoldable pub decimal_ℤ : ℤ → String
unfolding decimal
decimal_ℤ (pos n) = decimal n
decimal_ℤ (negsuc n) = "-" ++ decimal (suc n)

-- strings.EqualFold, for ASCII
unfoldable pub equal_fold : String → String → Bool
unfolding to_lower
equal_fold s t = to_lower s == to_lower t
