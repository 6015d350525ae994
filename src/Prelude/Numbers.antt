-- ===== src/Prelude/Numbers.antt =====
-- Decimal numbers as the standard library prints and parses them.
use Prim.Native.Nat.{ℕ, zero, suc, ◌+◌, ◌-◌, ◌*◌, ◌/◌, ◌%◌, ◌≤◌, ◌<◌}
use mathlib.Core.Path.{◌≡◌, refl, ◌∙◌}
use mathlib.Core.Logic.{◌≢◌, inl, inr}
use mathlib.Core.Bool.{◌&&◌}
use mathlib.Core.Option.{Option, none, some}
use mathlib.Core.List.{[], ◌∷◌}
use native.Mathlib.Omega.{arith}
use procherd.Prelude.Tests.{leb, ltb, ◌==◌, if◌then◌else◌, Bool-cases}
use procherd.Prelude.Lists.{All}
use procherd.Prelude.Texts.{Text, codes}

-- The digits of `n` before `rest`; a number below ten to the power of the fuel is printed whole.
digits_fuel : ℕ → ℕ → Text → Text
digits_fuel zero n rest = rest
digits_fuel (suc f) n rest =
    let more = digits_fuel f (n / 10) ((b'0' + n % 10) ∷ rest) in
    if ltb n 10 then (b'0' + n) ∷ rest else more

-- `to_string` of an unsigned number: `n + 1` rounds always suffice.
unfoldable pub to_decimal : ℕ → Text
unfolding digits_fuel
to_decimal n = digits_fuel (suc n) n []

-- The digits of a text after the value `acc`, refused above `limit`.
scan_digits : ℕ → ℕ → Text → Option ℕ
scan_digits limit acc [] = some acc
scan_digits limit acc (c ∷ s) =
    let next = acc * 10 + (c - b'0') in
    let rest = scan_digits limit next s in
    if leb b'0' c && leb c b'9' then if leb next limit then rest else none else none

abbrev nonempty_digits : ℕ → Text → Option ℕ
nonempty_digits limit [] = none
nonempty_digits limit (c ∷ s) = scan_digits limit 0 (c ∷ s)

-- `str::parse` of an unsigned integer whose greatest value is `limit`; a leading `+` is allowed.
unfoldable pub parse_uint : ℕ → Text → Option ℕ
unfolding scan_digits
parse_uint limit [] = none
parse_uint limit (c ∷ s) =
    if c == b'+' then nonempty_digits limit s else nonempty_digits limit (c ∷ s)

parse_runs : parse_uint 65535 (codes "08080") ≡ some 8080
unfolding parse_uint
parse_runs = refl

print_runs : to_decimal 43123 ≡ codes "43123"
unfolding to_decimal
print_runs = refl

-- A parsed number is within the limit.
scan_digits-le :
    (limit acc : ℕ) (s : Text) (n : ℕ) → acc ≤ limit → scan_digits limit acc s ≡ some n → n ≤ limit
unfolding scan_digits
scan_digits-le limit acc [] n h e = ground arith
scan_digits-le limit acc (c ∷ s) n h e =
    ground (arith, scan_digits-le limit (acc * 10 + (c - b'0')) s n)

pub parse_uint-le : (limit : ℕ) (s : Text) (n : ℕ) → parse_uint limit s ≡ some n → n ≤ limit
unfolding parse_uint
parse_uint-le limit [] n e = cc
parse_uint-le limit (c ∷ []) n e = ground (arith, scan_digits-le limit 0 (c ∷ []) n)
parse_uint-le limit (c ∷ d ∷ s) n e =
    ground (arith, scan_digits-le limit 0 (c ∷ d ∷ s) n, scan_digits-le limit 0 (d ∷ s) n)

-- Reading back what was printed: the scan of the digits of `n` and a rest goes on from `n`.
scan-digits_fuel :
    (f limit n : ℕ) (rest : Text)
    → n < f
    → n ≤ limit
    → scan_digits limit 0 (digits_fuel f n rest) ≡ scan_digits limit n rest
unfolding scan_digits digits_fuel
scan-digits_fuel zero limit n rest h l = absurd (omega arith)
scan-digits_fuel (suc f) limit n rest h l = elim (Bool-cases (ltb n 10)) [
  | inl e ↦ rw e (ground arith)
  | inr e ↦ rw e (
      scan-digits_fuel f limit (n / 10) ((b'0' + n % 10) ∷ rest) (ground arith) (omega arith)
      ∙ ground arith)
]

abbrev pub IsDigit : ℕ → Type 0
IsDigit c = (b'0' ≤ c) × (c ≤ b'9')

digits_fuel-IsDigit :
    (f n : ℕ) (rest : Text) → All IsDigit rest → All IsDigit (digits_fuel f n rest)
unfolding digits_fuel
digits_fuel-IsDigit zero n rest h = h
digits_fuel-IsDigit (suc f) n rest h = elim (Bool-cases (ltb n 10)) [
  | inl e ↦ rw e (ground arith)
  | inr e ↦ rw e (digits_fuel-IsDigit f (n / 10) ((b'0' + n % 10) ∷ rest) (omega arith, h))
]

-- A printed number is digits only.
pub to_decimal-IsDigit : (n : ℕ) → All IsDigit (to_decimal n)
unfolding to_decimal
to_decimal-IsDigit n = digits_fuel-IsDigit (suc n) n [] tt

parse-digits :
    (limit n : ℕ) (s : Text)
    → All IsDigit s
    → scan_digits limit 0 s ≡ some n
    → s ≢ []
    → parse_uint limit s ≡ some n
unfolding parse_uint
parse-digits limit n [] a h e = absurd (e refl)
parse-digits limit n (c ∷ s) a h e = ground arith

digits_fuel-nonempty : (f n : ℕ) (c : ℕ) (rest : Text) → digits_fuel f n (c ∷ rest) ≢ []
unfolding digits_fuel
digits_fuel-nonempty zero n c rest h = cc
digits_fuel-nonempty (suc f) n c rest h = elim (Bool-cases (ltb n 10)) [
  | inl e ↦ cc (rw e at h)
  | inr e ↦ digits_fuel-nonempty f (n / 10) (b'0' + n % 10) (c ∷ rest) (rw e at h)
]

to_decimal-nonempty : (n : ℕ) → to_decimal n ≢ []
unfolding to_decimal
to_decimal-nonempty n h = elim (Bool-cases (ltb n 10)) [
  | inl e ↦ cc (rw e at h)
  | inr e ↦ digits_fuel-nonempty n (n / 10) (b'0' + n % 10) [] (rw e at h)
]

-- Parsing what was printed gives the number back, up to the type's limit.
pub parse_uint-to_decimal : (limit n : ℕ) → n ≤ limit → parse_uint limit (to_decimal n) ≡ some n
unfolding to_decimal
parse_uint-to_decimal limit n h =
    parse-digits limit n (to_decimal n) (to_decimal-IsDigit n)
      (unfold scan_digits in scan-digits_fuel (suc n) limit n [] (omega arith) h)
      (to_decimal-nonempty n)
