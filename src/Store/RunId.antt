-- ===== src/Store/RunId.antt =====
-- src/store.rs: run identifiers. Parsing and printing a ULID is the `ulid` crate's: a parameter.
use procherd.Prelude.{
  ℕ, ◌≡◌, sym, ap, ◌∙◌, ◌≢◌, Bool, true, false, not, ◌&&◌, ◌||◌, Option, none, some, [], ◌++◌,
  length, All, All-append, All-map_of, arith, leb, ◌==◌, ==_iff,
}
use procherd.Prelude.Texts.{
  Text, codes, format, text_eq, text_eq→eq, strip_prefix, strip_prefix-some,
}
use procherd.Error.{
  AppError, usage_error, Result, ok, ◌>>=◌, ◌>>◌, refuse_if, refuse_if-ok, ok_or, >>=-eq-ok,
  ok_injective,
}

pub record Ulid : Type 1 where
  pub Ident : Type 0
  pub parse : Text → Option Ident
  pub print : Ident → Text

-- A printed ULID is 26 digits or capital letters (Crockford's base 32).
abbrev pub IsCapital : ℕ → Type 0
IsCapital c = ((leb b'0' c && leb c b'9') || (leb b'A' c && leb c b'Z')) ≡ true

pub record UlidLaws (u : Ulid) : Type 0 where
  pub print-capital : (i : u.Ident) → All IsCapital (u.print i)

abbrev pub run_prefix : Text
run_prefix = codes "run_"

abbrev pub bad_id : AppError
bad_id = usage_error (format "run ID must contain a canonical 26-character uppercase ULID" [])

module _ (u : Ulid) where
  unfoldable pub canonical_run_id : Text → Result Text
  unfolding strip_prefix text_eq
  canonical_run_id run_id = do
    suffix ←
        ok_or (usage_error (format "run ID must start with run_" []))
          (strip_prefix run_prefix run_id)
    parsed ← ok_or bad_id (u.parse suffix)
    refuse_if (not (length suffix == 26) || not (text_eq (run_prefix ++ u.print parsed) run_id))
        bad_id
    ok (run_prefix ++ u.print parsed)

  unfoldable pub validate_run_id : Text → Result (Unit {0})
  unfolding canonical_run_id
  validate_run_id run_id = do _ ← canonical_run_id run_id; ok tt

ok_or-ok {ℓ} : {A : Type ℓ} (e : AppError) (o : Option A) (a : A) → ok_or e o ≡ ok a → o ≡ some a
ok_or-ok e none a h = absurd (cc)
ok_or-ok e (some b) a h = cc

-- Neither a slash, nor a dot, nor a backslash.
abbrev pub IsPlain : ℕ → Type 0
IsPlain c = (c ≢ b'/') × (c ≢ b'.') × (c ≢ b'\\')

IsCapital-IsPlain : (c : ℕ) → IsCapital c → IsPlain c
IsCapital-IsPlain c h = ground arith

both_hold : (a b : Bool) → (not a || not b) ≡ false → (a ≡ true) × (b ≡ true)
both_hold a b h = ground arith

module _ (u : Ulid) (laws : UlidLaws u) where
  -- An accepted run identifier is returned unchanged, has 30 bytes, and is safe as one component of
  -- a path: it holds no separator and no dot.
  pub canonical_run_id-IsPlain :
      (run_id c : Text)
      → canonical_run_id u run_id ≡ ok c
      → (c ≡ run_id) × (length run_id ≡ 30) × All IsPlain run_id
  unfolding canonical_run_id
  canonical_run_id-IsPlain run_id c h =
      let (suffix, e, h1) = >>=-eq-ok (ok_or _ (strip_prefix run_prefix run_id)) _ h in
      let (parsed, p, h2) = >>=-eq-ok (ok_or bad_id (u.parse suffix)) _ h1 in
      let (_, g, h3) =
        >>=-eq-ok
          (refuse_if
            (not (length suffix == 26) || not (text_eq (run_prefix ++ u.print parsed) run_id))
            bad_id)
          (λ _. ok (run_prefix ++ u.print parsed)) h2 in
      let (l, q) =
        both_hold (length suffix == 26) (text_eq (run_prefix ++ u.print parsed) run_id)
          (refuse_if-ok _ bad_id g) in
      let printed : run_prefix ++ u.print parsed ≡ run_id = text_eq→eq _ run_id q in
      (
        sym (ok_injective _ c h3) ∙ printed,
        ap (λ (s : Text). length s) (strip_prefix-some run_prefix run_id suffix (ok_or-ok _ _ _ e))
            ∙ omega (arith, (==_iff (length suffix) 26).0 l),
        rw (← printed) (
            All-append IsPlain run_prefix (u.print parsed) (omega arith) (
              All-map_of IsCapital IsPlain (u.print parsed) IsCapital-IsPlain
                (laws.print-capital parsed))),
      )
