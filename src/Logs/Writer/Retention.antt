-- ===== src/Logs/Writer/Retention.antt =====
-- src/logs.rs: what the log retains of the output. Proofs.
use mathlib.Core.List.{append-nil, append_assoc}
use procherd.Prelude.{
  ℕ, zero, suc, ◌+◌, ◌-◌, ◌≤◌, ◌<◌, min, ◌≡◌, refl, sym, ap, ◌∙◌, inl, inr, true, false, Option,
  none, some, List, [], ◌∷◌, ◌++◌, ltb, take, length, length-append, length-take, saturating_add,
  u64_max, arith, Bool-cases, if◌then◌else◌,
}
use procherd.Prelude.Texts.{Text}
use procherd.Error.{ok}
use procherd.Model.Status.{LogStream, stdout, stderr, stream_eq}
use procherd.Model.Documents.{LogRecord}
use procherd.Logs.Writer.{
  LogChunk, Sha256, Base64, LogWriter, digest_stream, append_record, add_dropped, available,
  new_record, log_record,
}

-- The first `m` of a concatenation.
take-append : (m : ℕ) (s t : Text) → take m (s ++ t) ≡ take m s ++ take (m - length s) t
take-append zero s t = let e : 0 - length s ≡ 0 = omega arith in rw e refl
take-append (suc m) [] t = let e : suc m - 0 ≡ suc m = omega arith in rw e refl
take-append (suc m) (c ∷ s) t =
    let e : suc m - suc (length s) ≡ m - length s = omega arith in
    rw e (ap (λ (r : Text). c ∷ r) (take-append m s t))

abbrev or_nothing : Option Text → Text
or_nothing none = []
or_nothing (some s) = s

module _ (sha : Sha256) (b64 : Base64) where
  open sha use {update, start}

  -- The bytes that a record stands for; none if it is no base64 text.
  abbrev pub decoded : LogRecord → Text
  decoded r = or_nothing (b64.decode r.payload)

  -- The bytes that the log retains.
  abbrev pub contents : List LogRecord → Text
  contents [] = []
  contents (r ∷ rs) = decoded r ++ contents rs

  -- The records are numbered upwards from `n`.
  abbrev pub Numbered : ℕ → List LogRecord → Type 0
  Numbered n [] = Unit
  Numbered n (r ∷ rs) = (r.cursor ≡ n) × Numbered (suc n) rs

  contents-append : (rs qs : List LogRecord) → contents (rs ++ qs) ≡ contents rs ++ contents qs
  contents-append [] qs = refl
  contents-append (r ∷ rs) qs = rw (contents-append rs qs) (sym (append_assoc (decoded r) _ _))

  Numbered-append :
      (n k : ℕ) (rs : List LogRecord) (r : LogRecord)
      → k ≡ n + length rs
      → r.cursor ≡ k
      → Numbered n rs
      → Numbered n (rs ++ r ∷ [])
  Numbered-append n k [] r e c h = (omega arith, tt)
  Numbered-append n k (q ∷ rs) r e c h = (h.0, Numbered-append (suc n) k rs r (omega arith) c h.1)

  abbrev pub stream_part : LogStream → List LogChunk → Text
  stream_part s [] = []
  stream_part s (c ∷ cs) = (if stream_eq s c.stream then c.bytes else []) ++ stream_part s cs

  abbrev pub all_bytes : List LogChunk → Text
  all_bytes [] = []
  all_bytes (c ∷ cs) = c.bytes ++ all_bytes cs

  -- A writer that was given the output `total`, of which `out` and `errs` are the two streams.
  pub record Kept (most : ℕ) (total out errs : Text) (w : LogWriter sha b64) : Type 0 where
    pub budget : w.summary.max_bytes ≡ most
    pub retained : contents w.flushed ≡ take most total
    pub captured : w.summary.captured_bytes ≡ min most (length total)
    pub counted : w.summary.captured_bytes + w.summary.dropped_bytes ≡ length total
    pub cursor : w.summary.next_cursor ≡ 1 + length w.flushed
    pub few : length w.flushed ≤ w.summary.captured_bytes
    pub numbered : Numbered 1 w.flushed
    pub hashed_out : w.stdout_digest ≡ update start out
    pub hashed_err : w.stderr_digest ≡ update start errs

  -- The chunk's bytes are stored, as far as the budget goes, and counted.
  pub appended : ℕ → LogStream → Text → LogWriter sha b64 → LogWriter sha b64
  unfolding add_dropped append_record
  appended now stream bytes w =
      let kept = min (length bytes) (available sha b64 w) in
      add_dropped sha b64 (length bytes - kept)
        (if ltb 0 kept then append_record sha b64 now stream (take kept bytes) w else w)

  pub log_record-appended :
      (now : ℕ) (stream : LogStream) (bytes : Text) (w : LogWriter sha b64)
      → log_record sha b64 now none (record { stream = stream; bytes = bytes }) w
        ≡ ok (appended now stream bytes (digest_stream sha b64 stream bytes w))
  unfolding log_record appended
  log_record-appended now stdout bytes w =
      elim (Bool-cases (ltb 0 (min (length bytes) (available sha b64 w)))) [
        | inl e ↦ rw e
        | inr e ↦ rw e
      ]
  log_record-appended now stderr bytes w =
      elim (Bool-cases (ltb 0 (min (length bytes) (available sha b64 w)))) [
        | inl e ↦ rw e
        | inr e ↦ rw e
      ]

take-min : (k : ℕ) (s : Text) → take (min (length s) k) s ≡ take k s
take-min zero s = let e : min (length s) 0 ≡ 0 = omega arith in rw e refl
take-min (suc k) [] = let e : min 0 (suc k) ≡ 0 = omega arith in rw e refl
take-min (suc k) (c ∷ s) =
    let e : min (suc (length s)) (suc k) ≡ suc (min (length s) k) = omega arith in
    rw e (ap (λ (r : Text). c ∷ r) (take-min k s))

saturating_add-eq : (a b : ℕ) → a + b ≤ u64_max → saturating_add a b ≡ a + b
saturating_add-eq a b h = ground arith

ltb→lt : (a b : ℕ) → ltb a b ≡ true → a < b
ltb→lt a b h = ground arith

zero_of_ltb : (a : ℕ) → ltb 0 a ≡ false → a ≡ 0
zero_of_ltb a h = ground arith

-- What the hash and the base64 text are documented to do.
pub record CryptoLaws (sha : Sha256) (b64 : Base64) : Type 0 where
  pub update-append :
      (h : sha.Hasher) (s t : Text) → sha.update (sha.update h s) t ≡ sha.update h (s ++ t)
  pub update-nil : (h : sha.Hasher) → sha.update h [] ≡ h
  pub decode-encode : (s : Text) → b64.decode (b64.encode s) ≡ some s

module _ (sha : Sha256) (b64 : Base64) (laws : CryptoLaws sha b64) where
  open laws use {update-append, update-nil, decode-encode}

  pub digest_stream-Kept :
      (most : ℕ) (total out errs : Text) (stream : LogStream) (bytes : Text) (w : LogWriter sha b64)
      → Kept sha b64 most total out errs w
      → Kept sha b64 most total
          (out ++ (if stream_eq stdout stream then bytes else []))
          (errs ++ (if stream_eq stderr stream then bytes else []))
          (digest_stream sha b64 stream bytes w)
  unfolding digest_stream
  digest_stream-Kept most total out errs stdout bytes w v = record {
    budget = v.budget;
    retained = v.retained;
    captured = v.captured;
    counted = v.counted;
    cursor = v.cursor;
    few = v.few;
    numbered = v.numbered;
    hashed_out = rw v.hashed_out (update-append sha.start out bytes);
    hashed_err = rw (append-nil errs) v.hashed_err;
  }
  digest_stream-Kept most total out errs stderr bytes w v = record {
    budget = v.budget;
    retained = v.retained;
    captured = v.captured;
    counted = v.counted;
    cursor = v.cursor;
    few = v.few;
    numbered = v.numbered;
    hashed_out = rw (append-nil out) v.hashed_out;
    hashed_err = rw v.hashed_err (update-append sha.start errs bytes);
  }

  module _ (most : ℕ) (total out errs : Text) (now : ℕ) (stream : LogStream) (bytes : Text)
      (w : LogWriter sha b64) (v : Kept sha b64 most total out errs w)
      (fits : length (total ++ bytes) < u64_max) where
    abbrev room : ℕ
    room = available sha b64 w

    room-eq : room ≡ most - length total
    room-eq = omega (arith, v.budget, v.captured)

    split :
        take most (total ++ bytes)
        ≡ contents sha b64 w.flushed ++ take (min (length bytes) room) bytes
    split = take-append most total bytes ∙ rw (take-min room bytes, room-eq, v.retained) refl

    abbrev kept : ℕ
    kept = min (length bytes) room

    kept-length : length (take kept bytes) ≡ kept
    kept-length = omega (arith, length-take kept bytes)

    facts :
        (length (total ++ bytes) ≡ length total + length bytes)
        × (room ≡ most - length total)
        × (length total + length bytes < u64_max)
    facts = (length-append total bytes, room-eq, omega (arith, length-append total bytes, fits))

    more_captured :
        saturating_add w.summary.captured_bytes (length (take kept bytes))
        ≡ w.summary.captured_bytes + kept
    more_captured =
        saturating_add-eq _ _ (omega (arith, kept-length, v.captured, facts))
        ∙ omega (arith, kept-length)

    more_dropped :
        saturating_add w.summary.dropped_bytes (length bytes - kept)
        ≡ w.summary.dropped_bytes + (length bytes - kept)
    more_dropped = saturating_add-eq _ _ (omega (arith, v.counted, facts))

    decoded_new :
        {s : Text}
        → (take kept bytes ++ [] ≡ s)
        → contents sha b64 (new_record sha b64 now stream (take kept bytes) w ∷ []) ≡ s
    decoded_new e = rw (contents, decoded, decode-encode) e

    pub appended-Kept :
        Kept sha b64 most (total ++ bytes) out errs (appended sha b64 now stream bytes w)
    unfolding appended
    appended-Kept = elim (Bool-cases (ltb 0 (min (length bytes) room))) [
      | inl e ↦ rw e (record {
        budget = v.budget;
        retained =
            contents-append sha b64 w.flushed _
            ∙ ap (λ (r : Text). contents sha b64 w.flushed ++ r) (decoded_new (append-nil _))
            ∙ sym split;
        captured = more_captured ∙ omega (arith, v.captured, facts);
        counted = rw (more_captured, more_dropped) (omega (arith, v.counted, v.captured, facts));
        cursor =
            saturating_add-eq _ _
              (omega (arith, v.cursor, v.few, v.captured, facts, ltb→lt 0 kept e))
            ∙ omega (
              arith,
              v.cursor,
              length-append w.flushed (new_record sha b64 now stream (take kept bytes) w ∷ []),
            );
        few = rw more_captured (
            omega (
              arith,
              v.few,
              ltb→lt 0 kept e,
              length-append w.flushed (new_record sha b64 now stream (take kept bytes) w ∷ []),
            ));
        numbered =
            Numbered-append sha b64 1 w.summary.next_cursor w.flushed _ v.cursor refl v.numbered;
        hashed_out = v.hashed_out;
        hashed_err = v.hashed_err;
      })
      | inr e ↦
          let none_kept : kept ≡ 0 = zero_of_ltb kept e in
          rw e (record {
            budget = v.budget;
            retained = sym (split ∙ rw none_kept (append-nil (contents sha b64 w.flushed)));
            captured = v.captured ∙ omega (arith, none_kept, facts);
            counted = rw more_dropped (omega (arith, v.counted, none_kept, facts));
            cursor = v.cursor;
            few = v.few;
            numbered = v.numbered;
            hashed_out = v.hashed_out;
            hashed_err = v.hashed_err;
          })
    ]
