-- ===== src/Readiness/Probes/StatusLine.antt =====
-- src/readiness.rs: what `read_http_status` reads of a connection. Proofs.
use mathlib.Core.List.{append_assoc}
use mathlib.Core.Option.{bind}
use procherd.Prelude.{
  ℕ, zero, suc, ◌+◌, ◌-◌, ◌≤◌, ◌<◌, Bool, true, false, Option, none, some, [], ◌∷◌, ◌++◌, leb, ltb,
  ◌||◌, length, take, drop, if◌then◌else◌, min, ◌≡◌, refl, ap, ◌∙◌, arith, inl, inr, Bool-cases,
  length-append, length-take, take-append-drop, take_of_length-le,
}
use procherd.Prelude.Texts.{Text}
use procherd.Readiness.Probes.{
  TcpStream, read_response, has_newline, first_line, status_code, of_response, read_http_status,
  max_http_status_bytes,
}

take-append :
    (n : ℕ) (xs ys : Text) → length xs ≤ n → take n (xs ++ ys) ≡ xs ++ take (n - length xs) ys
take-append n [] ys h = let e : n - 0 ≡ n = omega arith in rw e refl
take-append zero (x ∷ xs) ys h = absurd (omega arith)
take-append (suc n) (x ∷ xs) ys h =
    let e : suc n - suc (length xs) ≡ n - length xs = omega arith in
    rw e (ap (λ r. x ∷ r) (take-append n xs ys (omega arith)))

append_nil : (xs : Text) → xs ++ [] ≡ xs
append_nil [] = refl
append_nil (x ∷ xs) = ap (λ r. x ∷ r) (append_nil xs)

has_newline-append : (r t : Text) → has_newline r ≡ true → has_newline (r ++ t) ≡ true
has_newline-append [] t h = cc
has_newline-append (c ∷ r) t h = ground (arith, has_newline-append r t)

first_line-append : (r t : Text) → has_newline r ≡ true → first_line (r ++ t) ≡ first_line r
unfolding first_line
first_line-append [] t h = cc
first_line-append (c ∷ r) t h = ground (arith, first_line-append r t)

abbrev line_of : Option Text → Option Text
line_of none = none
line_of (some r) = some (first_line r)

-- The first line of the first `max` bytes, when they have a whole line, or are as many, or are all
-- that there are.
abbrev pub line_within : ℕ → Bool → Text → Option Text
line_within max closed bytes =
    let front = take max bytes in
    if has_newline front || leb max (length front) || closed then some (first_line front) else none

module _ (max : ℕ) (closed : Bool) where
  within-full :
      (response bytes : Text)
      → length response ≡ max
      → some (first_line response) ≡ line_within max closed (response ++ bytes)
  within-full response bytes h =
      let e : take max (response ++ bytes) ≡ response ++ take (max - length response) bytes =
        take-append max response bytes (omega arith) in
      let z : max - length response ≡ 0 = omega arith in
      let t : leb max (length response) ≡ true = ground arith in
      rw (e, z, append_nil response, t)
        (elim (Bool-cases (has_newline response)) [ inl y ↦ rw y refl | inr y ↦ rw y refl ])

  within-newline :
      (response bytes : Text)
      → length response ≤ max
      → has_newline response ≡ true
      → some (first_line response) ≡ line_within max closed (response ++ bytes)
  within-newline response bytes h n =
      let rest = take (max - length response) bytes in
      let e : take max (response ++ bytes) ≡ response ++ rest = take-append max response bytes h in
      rw (e, has_newline-append response rest n, first_line-append response rest n) refl

  within-end :
      (response : Text)
      → length response < max
      → has_newline response ≡ false
      → line_within max closed (response ++ [])
        ≡ (if closed then some (first_line response) else none)
  within-end response h n =
      let t : leb max (length response) ≡ false = ground arith in
      rw (append_nil response, take_of_length-le max response (omega arith), n, t) refl

reassembled :
    (response : Text) (c k : ℕ) (s : Text)
    → (response ++ (c ∷ take k s)) ++ drop k s ≡ response ++ (c ∷ s)
reassembled response c k s =
    append_assoc response (c ∷ take k s) (drop k s)
    ∙ ap (λ t. response ++ (c ∷ t)) (take-append-drop k s)

-- A read makes the response longer, within the limit.
longer :
    (response : Text) (c size : ℕ) (s : Text)
    → length response < max_http_status_bytes
    → let k = min size (min (max_http_status_bytes - length response) 128 - 1) in
      (length response < length (response ++ (c ∷ take k s)))
      × (length (response ++ (c ∷ take k s)) ≤ max_http_status_bytes)
longer response c size s h =
    let k = min size (min (max_http_status_bytes - length response) 128 - 1) in
    let e = length-append response (c ∷ take k s) in
    let t = length-take k s in (omega (arith, e, t), omega (arith, e, t))

module _ (closed : Bool) where
  -- The loop, with enough fuel for the bytes that may still be read.
  read_response-line :
      (f : ℕ) (response bytes : Text) (sizes : ℕ → ℕ)
      → length response ≤ max_http_status_bytes
      → max_http_status_bytes ≤ length response + f
      → has_newline response ≡ false
      → line_of (read_response f response record { bytes = bytes; sizes = sizes; closed = closed })
        ≡ line_within max_http_status_bytes closed (response ++ bytes)
  unfolding read_response
  read_response-line zero response bytes sizes h e n =
      within-full max_http_status_bytes closed response bytes (omega arith)
  read_response-line (suc f) response [] sizes h e n =
      elim (Bool-cases (ltb (length response) max_http_status_bytes)) [
        | inr full ↦ rw full (within-full max_http_status_bytes closed response [] (ground arith))
        | inl more ↦
            rw (more, within-end max_http_status_bytes closed response (ground arith) n)
              (elim (Bool-cases closed) [ inl y ↦ rw y refl | inr y ↦ rw y refl ])
      ]
  read_response-line (suc f) response (c ∷ s) sizes h e n =
      elim (Bool-cases (ltb (length response) max_http_status_bytes)) [
        | inr full ↦
            rw full (within-full max_http_status_bytes closed response (c ∷ s) (ground arith))
        | inl more ↦
            let k = min (sizes 0) (min (max_http_status_bytes - length response) 128 - 1) in
            let response' = response ++ (c ∷ take k s) in
            let (grows, fits) = longer response c (sizes 0) s (ground arith) in
            rw (more, ← reassembled response c k s)
              (elim (Bool-cases (has_newline response')) [
                | inl y ↦
                    rw y (within-newline max_http_status_bytes closed response' (drop k s) fits y)
                | inr y ↦ rw y (
                    read_response-line f response' (drop k s) (λ i. sizes (suc i)) fits
                      (omega arith) y)
              ])
      ]

-- The code that is read of a connection is that of the first line of the bytes that it delivers, of
-- which no more than the limit are read: the sizes of the reads make no difference. There is none,
-- when a connection that is not closed delivers neither a whole line nor as many bytes as the limit.
pub read_http_status-line :
    (is_utf8 : Text → Bool) (stream : TcpStream)
    → read_http_status is_utf8 stream
      ≡ bind (line_within max_http_status_bytes stream.closed stream.bytes) (status_code is_utf8)
unfolding read_http_status bind
read_http_status-line is_utf8 stream =
    rw
      (← read_response-line stream.closed max_http_status_bytes [] stream.bytes stream.sizes
        (omega arith) (omega arith) refl)
      (elim (read_response max_http_status_bytes [] stream)
        as (λ r. of_response is_utf8 r ≡ bind (line_of r) (status_code is_utf8)) [
          | none ↦ refl
          | some r ↦ refl
        ])
