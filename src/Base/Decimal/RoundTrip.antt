-- ===== src/Base/Decimal/RoundTrip.antt =====
-- What `%d` prints, `ParseInt` reads back.
use Prim.Native.Nat.{ℕ, zero, suc, ◌+◌, ◌*◌, ◌/◌, ◌%◌, ◌<◌}
use Prim.Native.Char.{Char, code}
use Prim.Native.String.{String, ◌++◌}
use mathlib.Core.Path.{◌≡◌, refl, ap, sym, ◌∙◌}
use mathlib.Core.Logic.{inl, inr}
use mathlib.Core.Bool.{true}
use mathlib.Core.Option.{some}
use native.Mathlib.Omega.{arith}
use text.Mathlib.TextLemmas.{nil-append, cons-append, append-nil, append_assoc}
use flux_k8s.Base.Tests.{ltb, Bool-cases, ltb→lt}
use flux_k8s.Base.Int.{ℤ, pos, negsuc, IsInt32}
use flux_k8s.Base.Decimal.{digit, digits, format_ℕ, format, is_digit, scan, unsigned, parse_int32}

-- A text that begins with a digit.
abbrev StartsWithDigit : String → Type 0
StartsWithDigit s = (c : Char) × (t : String) × (s ≡ String.◌∷◌ c t) × (is_digit (code c) ≡ true)

digit_starts : (d : ℕ) → d < 10 → StartsWithDigit (digit d)
unfolding digit is_digit
digit_starts zero h = (_, _, refl, refl)
digit_starts (suc zero) h = (_, _, refl, refl)
digit_starts (suc (suc zero)) h = (_, _, refl, refl)
digit_starts (suc (suc (suc zero))) h = (_, _, refl, refl)
digit_starts (suc (suc (suc (suc zero)))) h = (_, _, refl, refl)
digit_starts (suc (suc (suc (suc (suc zero))))) h = (_, _, refl, refl)
digit_starts (suc (suc (suc (suc (suc (suc zero)))))) h = (_, _, refl, refl)
digit_starts (suc (suc (suc (suc (suc (suc (suc zero))))))) h = (_, _, refl, refl)
digit_starts (suc (suc (suc (suc (suc (suc (suc (suc zero)))))))) h = (_, _, refl, refl)
digit_starts (suc (suc (suc (suc (suc (suc (suc (suc (suc n))))))))) h = (_, _, refl, refl)

scan-digit : (d n : ℕ) (t : String) → d < 10 → scan n (digit d ++ t) ≡ scan (n * 10 + d) t
unfolding digit scan
scan-digit zero n t h = rw (cons-append, nil-append)
scan-digit (suc zero) n t h = rw (cons-append, nil-append)
scan-digit (suc (suc zero)) n t h = rw (cons-append, nil-append)
scan-digit (suc (suc (suc zero))) n t h = rw (cons-append, nil-append)
scan-digit (suc (suc (suc (suc zero)))) n t h = rw (cons-append, nil-append)
scan-digit (suc (suc (suc (suc (suc zero))))) n t h = rw (cons-append, nil-append)
scan-digit (suc (suc (suc (suc (suc (suc zero)))))) n t h = rw (cons-append, nil-append)
scan-digit (suc (suc (suc (suc (suc (suc (suc zero))))))) n t h = rw (cons-append, nil-append)
scan-digit (suc (suc (suc (suc (suc (suc (suc (suc zero)))))))) n t h = rw (cons-append, nil-append)
scan-digit (suc (suc (suc (suc (suc (suc (suc (suc (suc zero))))))))) n t h =
    rw (cons-append, nil-append)
scan-digit (suc (suc (suc (suc (suc (suc (suc (suc (suc (suc d)))))))))) n t h =
    absurd (omega arith)

scan-digits : (f n : ℕ) (t : String) → n < f → scan 0 (digits f n ++ t) ≡ scan n t
unfolding digits
scan-digits zero n t h = elim h [ ]
scan-digits (suc f) n t h = elim (Bool-cases (ltb n 10)) [
  | inl small ↦
      rw (small, digits) (scan-digit n 0 t (ltb→lt n 10 small) ∙ ap (λ k. scan k t) (omega arith))
  | inr large ↦
      rw (large, digits)
        (rw append_assoc (
          scan-digits f (n / 10) (digit (n % 10) ++ t) (ground arith)
          ∙ scan-digit (n % 10) (n / 10) t (omega arith)
          ∙ ap (λ k. scan k t) (omega arith)))
]

scan-format_ℕ : (n : ℕ) → scan 0 (format_ℕ n) ≡ some n
unfolding format_ℕ scan
scan-format_ℕ n =
    ap (scan 0) (sym (append-nil (digits (suc n) n))) ∙ scan-digits (suc n) n "" (omega arith)

digits_start : (f n : ℕ) → n < f → StartsWithDigit (digits f n)
unfolding digits
digits_start zero n h = elim h [ ]
digits_start (suc f) n h = elim (Bool-cases (ltb n 10)) [
  | inl small ↦ rw (small, digits) (digit_starts n (ltb→lt n 10 small))
  | inr large ↦
      let (c, t, e, p) = digits_start f (n / 10) (ground arith) in
      rw (large, digits) (c, t ++ digit (n % 10), rw e (cons-append c t _), p)
]

format_ℕ_start : (n : ℕ) → StartsWithDigit (format_ℕ n)
unfolding format_ℕ
format_ℕ_start n = digits_start (suc n) n (omega arith)

unsigned-eq-scan : (s : String) → StartsWithDigit s → unsigned s ≡ scan 0 s
unfolding unsigned
unsigned-eq-scan String.[] (c, t, e, p) = cc
unsigned-eq-scan (String.◌∷◌ c s) d = refl

unsigned-format_ℕ : (n : ℕ) → unsigned (format_ℕ n) ≡ some n
unsigned-format_ℕ n = unsigned-eq-scan (format_ℕ n) (format_ℕ_start n) ∙ scan-format_ℕ n

-- Two numbers with one print are equal.
pub format_ℕ_injective : (n m : ℕ) → format_ℕ n ≡ format_ℕ m → n ≡ m
format_ℕ_injective n m e = cc (scan-format_ℕ n, scan-format_ℕ m, e)

-- The print of an int32 is read back as the same number.
pub parse_int32-format : (z : ℤ) → IsInt32 z → parse_int32 (format z) ≡ some z
unfolding parse_int32 format is_digit
parse_int32-format (pos n) h =
    let (c, t, e, p) = format_ℕ_start n in
    rw e (ground (arith, ap unsigned (sym e) ∙ unsigned-format_ℕ n))
parse_int32-format (negsuc n) h =
    rw (cons-append, nil-append) (ground (arith, unsigned-format_ℕ (suc n)))
