-- ===== src/Cli/Durations.antt =====
-- src/cli.rs: `parse_duration`. A duration is its number of milliseconds.
use mathlib.Core.List.{append-nil}
use procherd.Prelude.{
  ℕ, ◌*◌, ◌≤◌, ◌<◌, ◌≡◌, refl, false, Option, none, some, [], ◌∷◌, ◌++◌, ltb, u64_max, arith,
  if◌then◌else◌, All,
}
use procherd.Prelude.Texts.{Text, codes, text, format, text_eq}
use procherd.Prelude.Numbers.{
  to_decimal, parse_uint, parse_uint-to_decimal, IsDigit, to_decimal-IsDigit,
}
use procherd.Error.{Result, ok, err, ◌>>=◌, ◌>>◌, refuse_if, ok_or, usage_error}

abbrev prepend : ℕ → Option Text → Option Text
prepend c none = none
prepend c (some s) = some (c ∷ s)

-- str::strip_suffix
unfoldable pub strip_suffix : Text → Text → Option Text
strip_suffix suffix [] = if text_eq suffix [] then some [] else none
strip_suffix suffix (c ∷ s) =
    let rest = strip_suffix suffix s in if text_eq suffix (c ∷ s) then some [] else prepend c rest

abbrev tagged : ℕ → Option Text → Option (Text × ℕ) → Option (Text × ℕ)
tagged multiplier none rest = rest
tagged multiplier (some number) rest = some (number, multiplier)

-- The chain of `if let`s.
split_unit : Text → Option (Text × ℕ)
split_unit value = tagged 1 (strip_suffix (codes "ms") value) (
    tagged 1000 (strip_suffix (codes "s") value) (
      tagged 60000 (strip_suffix (codes "m") value) (
        tagged 3600000 (strip_suffix (codes "h") value)
          (tagged 86400000 (strip_suffix (codes "d") value) none))))

unfoldable pub parse_duration : Text → Result ℕ
unfolding split_unit
parse_duration value = do
  (number, multiplier) ←
      ok_or (usage_error (format "duration must have an ms, s, m, h, or d suffix" []))
        (split_unit value)
  n ←
      ok_or (usage_error (format "invalid duration: {}" (text value ∷ [])))
        (parse_uint u64_max number)
  refuse_if (ltb u64_max (n * multiplier)) (usage_error (format "duration is too large" []))
  ok (n * multiplier)

-- The units and their lengths in milliseconds.
pub data TimeUnit : Type 0 where
  milliseconds seconds minutes hours days : TimeUnit

abbrev pub suffix : TimeUnit → Text
suffix milliseconds = codes "ms"
suffix seconds = codes "s"
suffix minutes = codes "m"
suffix hours = codes "h"
suffix days = codes "d"

abbrev pub unit_length : TimeUnit → ℕ
unit_length milliseconds = 1
unit_length seconds = 1000
unit_length minutes = 60 * 1000
unit_length hours = 60 * (60 * 1000)
unit_length days = 24 * (60 * (60 * 1000))

abbrev in_front : Text → Option Text → Option Text
in_front s none = none
in_front s (some r) = some (s ++ r)

other_head : (c x : ℕ) (xs s : Text) → c ≤ b'9' → b'9' < x → text_eq (x ∷ xs) (c ∷ s) ≡ false
unfolding text_eq
other_head c x xs s h k = ground arith

-- A suffix that does not begin with a digit is looked for behind the digits.
strip_suffix-digits :
    (x : ℕ) (xs s rest : Text)
    → b'9' < x
    → All IsDigit s
    → strip_suffix (x ∷ xs) (s ++ rest) ≡ in_front s (strip_suffix (x ∷ xs) rest)
unfolding strip_suffix
strip_suffix-digits x xs [] rest h a = in_front-nothing (strip_suffix (x ∷ xs) rest)
  where
    in_front-nothing : (o : Option Text) → o ≡ in_front [] o
    in_front-nothing none = refl
    in_front-nothing (some r) = refl
strip_suffix-digits x xs (c ∷ s) rest h (a, more) =
    rw (other_head c x xs (s ++ rest) a.1 h, strip_suffix-digits x xs s rest h more)
      (prepend-in_front (strip_suffix (x ∷ xs) rest))
  where
    prepend-in_front : (o : Option Text) → prepend c (in_front s o) ≡ in_front (c ∷ s) o
    prepend-in_front none = refl
    prepend-in_front (some r) = refl

strip_suffix-suffix :
    (s : Text) (k unit : TimeUnit)
    → All IsDigit s
    → strip_suffix (suffix k) (s ++ suffix unit)
      ≡ in_front s (strip_suffix (suffix k) (suffix unit))
strip_suffix-suffix s milliseconds unit a =
    strip_suffix-digits b'm' (codes "s") s (suffix unit) (omega arith) a
strip_suffix-suffix s seconds unit a = strip_suffix-digits b's' [] s (suffix unit) (omega arith) a
strip_suffix-suffix s minutes unit a = strip_suffix-digits b'm' [] s (suffix unit) (omega arith) a
strip_suffix-suffix s hours unit a = strip_suffix-digits b'h' [] s (suffix unit) (omega arith) a
strip_suffix-suffix s days unit a = strip_suffix-digits b'd' [] s (suffix unit) (omega arith) a

split_unit-suffix :
    (s : Text) (unit : TimeUnit)
    → All IsDigit s
    → split_unit (s ++ suffix unit) ≡ some (s ++ [], unit_length unit)
unfolding split_unit
split_unit-suffix s milliseconds a =
    rw
      (
        strip_suffix-suffix s milliseconds milliseconds a,
        strip_suffix-suffix s seconds milliseconds a,
        strip_suffix-suffix s minutes milliseconds a,
        strip_suffix-suffix s hours milliseconds a,
        strip_suffix-suffix s days milliseconds a,
      )
      (unfold strip_suffix in unfold text_eq in refl)
split_unit-suffix s seconds a =
    rw
      (
        strip_suffix-suffix s milliseconds seconds a,
        strip_suffix-suffix s seconds seconds a,
        strip_suffix-suffix s minutes seconds a,
        strip_suffix-suffix s hours seconds a,
        strip_suffix-suffix s days seconds a,
      )
      (unfold strip_suffix in unfold text_eq in refl)
split_unit-suffix s minutes a =
    rw
      (
        strip_suffix-suffix s milliseconds minutes a,
        strip_suffix-suffix s seconds minutes a,
        strip_suffix-suffix s minutes minutes a,
        strip_suffix-suffix s hours minutes a,
        strip_suffix-suffix s days minutes a,
      )
      (unfold strip_suffix in unfold text_eq in refl)
split_unit-suffix s hours a =
    rw
      (
        strip_suffix-suffix s milliseconds hours a,
        strip_suffix-suffix s seconds hours a,
        strip_suffix-suffix s minutes hours a,
        strip_suffix-suffix s hours hours a,
        strip_suffix-suffix s days hours a,
      )
      (unfold strip_suffix in unfold text_eq in refl)
split_unit-suffix s days a =
    rw
      (
        strip_suffix-suffix s milliseconds days a,
        strip_suffix-suffix s seconds days a,
        strip_suffix-suffix s minutes days a,
        strip_suffix-suffix s hours days a,
        strip_suffix-suffix s days days a,
      )
      (unfold strip_suffix in unfold text_eq in refl)

-- A number of a unit that fits in 64 bits of milliseconds is read as that many milliseconds, for
-- each of the units; one that does not fit is refused.
pub parse_duration-to_decimal :
    (n : ℕ) (unit : TimeUnit)
    → n ≤ u64_max
    → (n * unit_length unit ≤ u64_max
        → parse_duration (to_decimal n ++ suffix unit) ≡ ok (n * unit_length unit))
      × (u64_max < n * unit_length unit
          → parse_duration (to_decimal n ++ suffix unit)
            ≡ err (usage_error (format "duration is too large" [])))
unfolding parse_duration
parse_duration-to_decimal n unit h =
    let e = split_unit-suffix (to_decimal n) unit (to_decimal-IsDigit n) in
    let d = parse_uint-to_decimal u64_max n h in
    (
      λ l. rw (e, append-nil (to_decimal n), d) (ground arith),
      λ l. rw (e, append-nil (to_decimal n), d) (ground arith),
    )
