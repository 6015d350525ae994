-- ===== src/Store/Token.antt =====
-- src/store.rs: `read_owner_token` and `write_stop_request`.
use procherd.Prelude.{
  ℕ, zero, suc, ◌-◌, ◌≡◌, refl, ap, ◌∙◌, Bool, true, false, not, ◌&&◌, ◌||◌, ◌==◌, [], ◌∷◌, ◌++◌,
  inl, inr, length, all, is_empty, ltb, leb, arith, if◌then◌else◌,
}
use procherd.Prelude.Texts.{Text, codes, text, num, format}
use procherd.Error.{AppError, Result, ok, err, ◌>>=◌, ◌>>◌, refuse_if, integrity_error, from_io}
use procherd.Hex.{is_ascii_hexdigit}
use procherd.Store.Files.{
  Node, absent, symlink, irregular, unopenable, regular, ensure_regular_file,
}
use procherd.Store.RunId.{Ulid}
use procherd.Store.Runs.{Store, run_dir, path_in}

-- The characters of white space (of Unicode) with one, two and three bytes.
white1 : ℕ → Bool
white1 c = (leb 9 c && leb c 13) || c == 32

white2 : ℕ → ℕ → Bool
white2 c d = c == 0xC2 && (d == 0x85 || d == 0xA0)

white3 : ℕ → ℕ → ℕ → Bool
white3 c d e =
    (c == 0xE1 && (d == 0x9A && e == 0x80))
    || (c == 0xE2
        && (d == 0x80 && (leb 0x80 e && leb e 0x8A || (e == 0xA8 || (e == 0xA9 || e == 0xAF)))
            || (d == 0x81 && e == 0x9F)))
    || (c == 0xE3 && (d == 0x80 && e == 0x80))

-- The length of the one that the bytes begin with, or 0.
white_len : Text → ℕ
unfolding white1 white2 white3
white_len [] = 0
white_len (c ∷ []) = if white1 c then 1 else 0
white_len (c ∷ d ∷ []) = if white1 c then 1 else if white2 c d then 2 else 0
white_len (c ∷ d ∷ e ∷ _) =
    if white1 c then 1 else if white2 c d then 2 else if white3 c d e then 3 else 0

-- `skip` bytes of a white space character are still to be passed over.
trim_from : ℕ → Text → Text
unfolding white_len
trim_from skip [] = []
trim_from (suc k) (c ∷ s) = trim_from k s
trim_from zero (c ∷ s) =
    let rest = trim_from (white_len (c ∷ s) - 1) s in if white_len (c ∷ s) == 0 then c ∷ s else rest

trim_start : Text → Text
unfolding trim_from
trim_start s = trim_from 0 s

trim_end : Text → Text
unfolding trim_start
trim_end [] = []
trim_end (c ∷ s) = let rest = trim_end s in if is_empty (trim_start (c ∷ s)) then [] else c ∷ rest

-- str::trim
unfoldable pub trim : Text → Text
unfolding trim_start trim_end
trim s = trim_end (trim_start s)

too_long : ℕ → Text → AppError
too_long limit path =
    integrity_error (format "file exceeds {} bytes: {}" (num limit ∷ text path ∷ []))

-- The length and the text of the opened file, or the reader's error.
read_text : ℕ → Text → Node Text → Result Text
unfolding too_long
read_text limit path (absent e) = err (from_io e)
read_text limit path symlink = err (from_io path)
read_text limit path irregular = err (from_io path)
read_text limit path (unopenable e) = err (from_io e)
read_text limit path (regular len (inl e)) = do
  refuse_if (ltb limit len) (too_long limit path)
  err (from_io e)
read_text limit path (regular len (inr s)) = do
  refuse_if (ltb limit len) (too_long limit path)
  refuse_if (ltb limit (length s)) (too_long limit path)
  ok s

unfoldable pub read_bounded_text : ℕ → Text → Node Text → Result Text
unfolding read_text
read_bounded_text limit path node = do ensure_regular_file path node; read_text limit path node

abbrev pub is_token : Text → Bool
is_token s = length s == 64 && all is_ascii_hexdigit s

module _ (u : Ulid) where
  unfoldable pub read_owner_token : Store → Text → Result Text
  read_owner_token store run_id = do
    (path, d) ← run_dir u store run_id
    token ← read_bounded_text 256 (path_in path (codes "owner.token")) d.owner_token
    refuse_if (not (length (trim token) == 64) || not (all is_ascii_hexdigit (trim token)))
        (integrity_error (format "owner token is malformed" []))
    ok (trim token)

white1-hex : (c : ℕ) → is_ascii_hexdigit c ≡ true → white1 c ≡ false
unfolding white1
white1-hex c h = ground arith

white2-hex : (c d : ℕ) → is_ascii_hexdigit c ≡ true → white2 c d ≡ false
unfolding white2
white2-hex c d h = let n : (c == 0xC2) ≡ false = ground arith in rw n refl

white3-hex : (c d e : ℕ) → is_ascii_hexdigit c ≡ true → white3 c d e ≡ false
unfolding white3
white3-hex c d e h =
    let a : (c == 0xE1) ≡ false = ground arith in
    let b : (c == 0xE2) ≡ false = ground arith in
    let f : (c == 0xE3) ≡ false = ground arith in rw (a, b, f) refl

-- A hexadecimal digit is not white, nor does one begin white space.
white_len-hex : (c : ℕ) (s : Text) → is_ascii_hexdigit c ≡ true → white_len (c ∷ s) ≡ 0
unfolding white_len
white_len-hex c [] h = rw (white1-hex c h) refl
white_len-hex c (d ∷ []) h = rw (white1-hex c h, white2-hex c d h) refl
white_len-hex c (d ∷ e ∷ s) h = rw (white1-hex c h, white2-hex c d h, white3-hex c d e h) refl

trim_start-hex : (c : ℕ) (s : Text) → is_ascii_hexdigit c ≡ true → trim_start (c ∷ s) ≡ c ∷ s
unfolding trim_start trim_from
trim_start-hex c s h = rw (trim_from, white_len-hex c s h) refl

trim_end-hex : (s : Text) → all is_ascii_hexdigit s ≡ true → trim_end (s ++ (10 ∷ [])) ≡ s
unfolding trim_end
trim_end-hex [] h = refl
trim_end-hex (c ∷ s) h =
    rw (trim_start-hex c (s ++ (10 ∷ [])) (ground arith), trim_end-hex s (ground arith)) refl

-- The newline after a token is cut off.
pub trim-token : (s : Text) → all is_ascii_hexdigit s ≡ true → trim (s ++ (10 ∷ [])) ≡ s
unfolding trim
trim-token [] h = refl
trim-token (c ∷ s) h =
    ap trim_end (trim_start-hex c (s ++ (10 ∷ [])) (ground arith)) ∙ trim_end-hex (c ∷ s) h
