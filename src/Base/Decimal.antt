-- ===== src/Base/Decimal.antt =====
-- Go's decimal integers: `fmt.Sprintf("%d", n)` and `strconv.ParseInt(s, 10, 32)`.
pub mod RoundTrip
use Prim.Native.Nat.{ℕ, zero, suc, ◌+◌, ◌-◌, ◌*◌, ◌/◌, ◌%◌, ◌^◌}
use Prim.Native.Char.{code}
use Prim.Native.String.{String, ◌++◌}
use mathlib.Core.Bool.{Bool, ◌&&◌}
use mathlib.Core.Option.{Option, none, some}
use flux_k8s.Base.Tests.{ltb, leb, ◌==◌, if◌then◌else◌}
use flux_k8s.Base.Int.{ℤ, pos, negsuc}

digit : ℕ → String
digit zero = "0"
digit (suc zero) = "1"
digit (suc (suc zero)) = "2"
digit (suc (suc (suc zero))) = "3"
digit (suc (suc (suc (suc zero)))) = "4"
digit (suc (suc (suc (suc (suc zero))))) = "5"
digit (suc (suc (suc (suc (suc (suc zero)))))) = "6"
digit (suc (suc (suc (suc (suc (suc (suc zero))))))) = "7"
digit (suc (suc (suc (suc (suc (suc (suc (suc zero)))))))) = "8"
digit (suc (suc (suc (suc (suc (suc (suc (suc (suc n))))))))) = "9"

-- The digits of `n`, by fuel: `suc n` rounds are enough.
digits : ℕ → ℕ → String
digits zero n = ""
digits (suc f) n =
    let more = digits f (n / 10) ++ digit (n % 10) in if ltb n 10 then digit n else more

-- `%d` of a nonnegative number, and of any integer.
unfoldable pub format_ℕ : ℕ → String
unfolding digits digit
format_ℕ n = digits (suc n) n

unfoldable pub format : ℤ → String
unfolding format_ℕ
format (pos n) = format_ℕ n
format (negsuc n) = "-" ++ format_ℕ (suc n)

is_digit : ℕ → Bool
is_digit c = leb b'0' c && leb c b'9'

scan : ℕ → String → Option ℕ
unfolding is_digit
scan n String.[] = some n
scan n (String.◌∷◌ c s) = if is_digit (code c) then scan (n * 10 + (code c - b'0')) s else none

unsigned : String → Option ℕ
unfolding scan
unsigned String.[] = none
unsigned (String.◌∷◌ c s) = scan 0 (String.◌∷◌ c s)

-- The range tests of a 32-bit result; out of range is an error.
positive32 : Option ℕ → Option ℤ
positive32 none = none
positive32 (some n) = if ltb n (2 ^ 31) then some (pos n) else none

negative32 : Option ℕ → Option ℤ
negative32 none = none
negative32 (some zero) = some (pos 0)
negative32 (some (suc n)) = if ltb n (2 ^ 31) then some (negsuc n) else none

-- `strconv.ParseInt(s, 10, 32)`: an optional sign and one digit or more, or an error.
unfoldable pub parse_int32 : String → Option ℤ
unfolding unsigned positive32 negative32
parse_int32 String.[] = none
parse_int32 (String.◌∷◌ c s) =
    if code c == b'-'
    then negative32 (unsigned s)
    else if code c == b'+'
    then positive32 (unsigned s)
    else positive32 (unsigned (String.◌∷◌ c s))
