-- ===== src/Readiness/Probes.antt =====
-- src/readiness.rs: the reading of an HTTP status line, `read_http_status`, and the probe of an URL, `probe_http`.
pub mod StatusLine
pub mod Answers
use procherd.Prelude.{
  ℕ, zero, suc, ◌+◌, ◌-◌, Bool, true, false, not, Option, none, some, List, [], ◌∷◌, ◌++◌, leb, ltb,
  ◌==◌, ◌&&◌, ◌||◌, length, take, drop, any, is_empty, is_some, if◌then◌else◌, min, ◌≡◌, refl,
}
use procherd.Prelude.Texts.{Text, Message, codes, strip_prefix, text, num, format}
use procherd.Prelude.Numbers.{parse_uint, to_decimal}
use procherd.Error.{Result, ok, err}
use procherd.Readiness.Conditions.{Net, Url, u16_max, validate_http_url}

abbrev pub max_http_status_bytes : ℕ
max_http_status_bytes = 1024

-- A connection: the bytes that it will deliver, how many more than one the reads find at a time, and
-- whether it is closed after them; a read of one that is not closed fails then.
pub record TcpStream : Type 0 where
  pub bytes : Text
  pub sizes : ℕ → ℕ
  pub closed : Bool

-- Read::read, into a buffer that is not empty: the bytes read, and the connection after it.
abbrev pub read : ℕ → TcpStream → Option (Text × TcpStream)
read limit stream = elim stream.bytes [
  | [] ↦ if stream.closed then some ([], stream) else none
  | c ∷ s ↦
      let more = min (stream.sizes 0) (limit - 1) in
      some
        (c ∷ take more s, record stream { bytes = drop more s; sizes = λ i. stream.sizes (suc i) })
]

abbrev pub has_newline : Text → Bool
has_newline = any (λ byte. byte == b'\n')

-- The loop, on fuel.
unfoldable pub read_response : ℕ → Text → TcpStream → Option Text
read_response zero response stream = some response
read_response (suc f) response stream =
    let more : Option Text =
      elim (read (min (max_http_status_bytes - length response) 128) stream) [
        | none ↦ none
        | some (bytes, stream') ↦
            let rest = read_response f (response ++ bytes) stream' in
            if is_empty bytes
            then some response
            else if has_newline (response ++ bytes)
            then some (response ++ bytes)
            else rest
      ] in
    if ltb (length response) max_http_status_bytes then more else some response

-- The bytes before the first newline.
unfoldable pub first_line : Text → Text
first_line [] = []
first_line (c ∷ s) = let rest = first_line s in if c == b'\n' then [] else c ∷ rest

abbrev is_ascii_whitespace : ℕ → Bool
is_ascii_whitespace c = c == 32 || c == 9 || c == 10 || c == 12 || c == 13

abbrev with_field : Text → List Text → List Text
with_field [] fields = fields
with_field (c ∷ s) fields = (c ∷ s) ∷ fields

-- The fields of a text, of which the first begins with `field`.
fields_from : Text → Text → List Text
fields_from field [] = with_field field []
fields_from field (c ∷ s) =
    let next = fields_from [] s in
    let same = fields_from (field ++ (c ∷ [])) s in
    if is_ascii_whitespace c then with_field field next else same

-- str::split_ascii_whitespace
unfoldable pub split_ascii_whitespace : Text → List Text
unfolding fields_from
split_ascii_whitespace = fields_from []

abbrev code_of : List Text → Option ℕ
code_of [] = none
code_of (protocol ∷ []) = none
code_of (protocol ∷ code ∷ _) =
    if is_some (strip_prefix (codes "HTTP/1.") protocol) then parse_uint u16_max code else none

-- The code of a status line.
unfoldable pub status_code : (Text → Bool) → Text → Option ℕ
status_code is_utf8 line = if is_utf8 line then code_of (split_ascii_whitespace line) else none

abbrev pub of_response : (Text → Bool) → Option Text → Option ℕ
of_response is_utf8 none = none
of_response is_utf8 (some response) = status_code is_utf8 (first_line response)

unfoldable pub read_http_status : (Text → Bool) → TcpStream → Option ℕ
read_http_status is_utf8 stream =
    of_response is_utf8 (read_response max_http_status_bytes [] stream)

abbrev target_of : Url → Text
target_of url =
    let target = if is_empty url.path then codes "/" else url.path in
    elim url.query [ none ↦ target | some query ↦ target ++ codes "?" ++ query ]

abbrev host_header : Text → Option ℕ → Text
host_header host port =
    let host = if any (λ c. c == b':') host then codes "[" ++ host ++ codes "]" else host in
    elim port [
      | none ↦ host
      | some port ↦ if port == 80 then host else host ++ codes ":" ++ to_decimal port
    ]

unfoldable pub http_request : Url → Text → Text
http_request url host =
    codes "GET "
    ++ target_of url
    ++ codes " HTTP/1.1\r\nHost: "
    ++ host_header host url.port
    ++ codes "\r\nConnection: close\r\n\r\n"

module _ (n : Net) (is_utf8 : Text → Bool) where
  open n use {IpAddr}

  -- `connect` is the outcome of a connection to an address, `written` that of writing a text to it.
  module _ (connect : IpAddr × ℕ → Option TcpStream) (written : IpAddr × ℕ → Text → Bool) where
    -- The answer at one address; `next` is what the later addresses answer.
    unfoldable pub probe_address : Text → Url → IpAddr × ℕ → Option Message → Option Message
    probe_address value url address next = elim (connect address) [
      | none ↦ next
      | some stream ↦ elim url.host_str [
        | none ↦ none
        | some host ↦
            if written address (http_request url host)
            then elim (read_http_status is_utf8 stream) [
              | none ↦ next
              | some code ↦
                  if leb 200 code && ltb code 400
                  then some (format "HTTP {} from {}" (num code ∷ text value ∷ []))
                  else next
            ]
            else next
      ]
    ]

    unfoldable pub probe_addresses : Text → Url → List (IpAddr × ℕ) → Option Message
    probe_addresses value url [] = none
    probe_addresses value url (address ∷ rest) =
        probe_address value url address (probe_addresses value url rest)

    abbrev pub probe_valid : Text → Result (Url × List (IpAddr × ℕ)) → Option Message
    probe_valid value (err _) = none
    probe_valid value (ok (url, addresses)) = probe_addresses value url addresses

    unfoldable pub probe_http : Text → Option Message
    probe_http value = probe_valid value (validate_http_url n value)
