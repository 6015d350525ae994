-- ===== src/Hex.antt =====
-- src/hex.rs: lowercase hexadecimal text.
use procherd.Prelude.{
  ℕ, ◌+◌, ◌-◌, ◌*◌, ◌/◌, ◌%◌, ◌<◌, ◌≡◌, refl, [], ◌∷◌, arith, length, All, Bool, true, ◌&&◌, ◌||◌,
  leb, ltb, if◌then◌else◌, all,
}
use procherd.Prelude.Texts.{Text, codes}

-- The table `DIGITS`, at a number below 16.
abbrev digit : ℕ → ℕ
digit n = if ltb n 10 then b'0' + n else b'a' + (n - 10)

-- `byte >> 4` and `byte & 0x0f` of a byte.
unfoldable pub encode_lower : Text → Text
encode_lower [] = []
encode_lower (byte ∷ bytes) = digit (byte / 16) ∷ digit (byte % 16) ∷ encode_lower bytes

-- u8::is_ascii_hexdigit
abbrev pub is_ascii_hexdigit : ℕ → Bool
is_ascii_hexdigit c =
    leb b'0' c && leb c b'9' || (leb b'a' c && leb c b'f' || leb b'A' c && leb c b'F')

-- The value of a lowercase hexadecimal digit.
abbrev value : ℕ → ℕ
value c = if leb c b'9' then c - b'0' else c - b'a' + 10

-- The reader that inverts `encode_lower`.
abbrev pub decode : Text → Text
decode [] = []
decode (h ∷ []) = []
decode (h ∷ l ∷ s) = (16 * value h + value l) ∷ decode s

abbrev pub Bytes : Text → Type 0
Bytes = All (λ b. b < 256)

-- Each byte becomes two characters.
pub length-encode_lower : (s : Text) → length (encode_lower s) ≡ 2 * length s
unfolding encode_lower
length-encode_lower [] = refl
length-encode_lower (b ∷ s) = omega (arith, length-encode_lower s)

-- Every character of the encoding of bytes is a hexadecimal digit.
pub encode_lower-hex : (s : Text) → Bytes s → all is_ascii_hexdigit (encode_lower s) ≡ true
unfolding encode_lower
encode_lower-hex [] h = refl
encode_lower-hex (b ∷ s) h = ground (arith, encode_lower-hex s h.1)

value-digit : (b : ℕ) → b < 256 → 16 * value (digit (b / 16)) + value (digit (b % 16)) ≡ b
value-digit b h = ground arith

-- Decoding the encoding of bytes gives the bytes back, so that different bytes have different texts.
pub decode-encode_lower : (s : Text) → Bytes s → decode (encode_lower s) ≡ s
unfolding encode_lower
decode-encode_lower [] h = refl
decode-encode_lower (b ∷ s) h = ground (arith, value-digit b h.0, decode-encode_lower s h.1)

encode_lower_runs : encode_lower (0x00 ∷ 0x0f ∷ 0x10 ∷ 0xab ∷ 0xff ∷ []) ≡ codes "000f10abff"
unfolding encode_lower
encode_lower_runs = refl
