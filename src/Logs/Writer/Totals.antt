-- ===== src/Logs/Writer/Totals.antt =====
-- src/logs.rs: a whole run of the writer, and what it shares with log readiness. Proofs.
use mathlib.Core.List.{append-nil, append_assoc}
use procherd.Prelude.{
  ℕ, ◌+◌, ◌<◌, min, ◌≡◌, refl, sym, none, some, List, [], ◌∷◌, ◌++◌, take, take_of_length-le,
  length, length-append, u64_max, arith, if◌then◌else◌,
}
use procherd.Prelude.Texts.{Text}
use procherd.Hex.{encode_lower}
use procherd.Error.{Result, ok, ◌>>=◌}
use procherd.Model.Status.{stdout, stderr, stream_eq}
use procherd.Logs.Writer.{
  LogChunk, Sha256, Base64, LogWriter, create, digest_stream, log_record, finish,
}
use procherd.Logs.Writer.Retention.{
  Kept, CryptoLaws, contents, Numbered, appended, log_record-appended, digest_stream-Kept,
  appended-Kept, stream_part, all_bytes,
}

module _ (sha : Sha256) (b64 : Base64) where
  -- Every chunk is recorded, the i-th at the time `clock i`, and no write fails.
  unfoldable pub record_all :
      (ℕ → ℕ) → ℕ → List LogChunk → LogWriter sha b64 → Result (LogWriter sha b64)
  record_all clock i [] w = ok w
  record_all clock i (c ∷ cs) w =
      log_record sha b64 (clock i) none c w >>= record_all clock (i + 1) cs

module _ (sha : Sha256) (b64 : Base64) (laws : CryptoLaws sha b64) where
  record-Kept :
      (most : ℕ) (total out errs : Text) (now : ℕ) (c : LogChunk) (w : LogWriter sha b64)
      → Kept sha b64 most total out errs w
      → length (total ++ c.bytes) < u64_max
      → (w' : LogWriter sha b64) × (log_record sha b64 now none c w ≡ ok w')
        × Kept sha b64 most
            (total ++ c.bytes)
            (out ++ (if stream_eq stdout c.stream then c.bytes else []))
            (errs ++ (if stream_eq stderr c.stream then c.bytes else []))
            w'
  record-Kept most total out errs now c w v fits = (
    appended sha b64 now c.stream c.bytes (digest_stream sha b64 c.stream c.bytes w),
    log_record-appended sha b64 now c.stream c.bytes w,
    appended-Kept sha b64 laws most total _ _ now c.stream c.bytes _
        (digest_stream-Kept sha b64 laws most total out errs c.stream c.bytes w v) fits,
  )

  record_all-Kept :
      (most : ℕ) (total out errs : Text) (clock : ℕ → ℕ) (i : ℕ) (cs : List LogChunk)
      (w : LogWriter sha b64)
      → Kept sha b64 most total out errs w
      → length (total ++ all_bytes sha b64 cs) < u64_max
      → (w' : LogWriter sha b64) × (record_all sha b64 clock i cs w ≡ ok w')
        × Kept sha b64 most
            (total ++ all_bytes sha b64 cs)
            (out ++ stream_part sha b64 stdout cs)
            (errs ++ stream_part sha b64 stderr cs)
            w'
  unfolding record_all
  record_all-Kept most total out errs clock i [] w v fits =
      (w, refl, rw (append-nil total, append-nil out, append-nil errs) v)
  record_all-Kept most total out errs clock i (c ∷ cs) w v fits =
      let r = record-Kept most total out errs (clock i) c w v (
        omega (
          arith,
          length-append total c.bytes,
          length-append total (c.bytes ++ all_bytes sha b64 cs),
          length-append c.bytes (all_bytes sha b64 cs),
          fits,
        )) in
      let q =
        record_all-Kept most (total ++ c.bytes) _ _ clock (i + 1) cs r.0 r.2
          (rw (append_assoc total) fits) in
      (q.0, rw r.1 q.1, rw (← append_assoc total, ← append_assoc out, ← append_assoc errs) q.2)

  create-Kept : (most : ℕ) → Kept sha b64 most [] [] [] (create sha b64 most)
  unfolding create
  create-Kept most = record {
    budget = refl;
    retained = sym (take_of_length-le most [] (omega arith));
    captured = omega arith;
    counted = refl;
    cursor = refl;
    few = omega arith;
    numbered = tt;
    hashed_out = sym (laws.update-nil sha.start);
    hashed_err = sym (laws.update-nil sha.start);
  }

  -- The writer with the budget `most` is given any chunks, of fewer than 2^64 - 1 bytes in all, and
  -- no write fails. Then it succeeds; the records hold exactly the first `most` bytes of the output
  -- and are numbered 1, 2, 3, ... up to the next cursor; the captured and the dropped bytes add up
  -- to the output; and the final digests cover each stream whole.
  pub record_all_lem :
      (most : ℕ) (clock : ℕ → ℕ) (cs : List LogChunk)
      → length (all_bytes sha b64 cs) < u64_max
      → (w : LogWriter sha b64) × (record_all sha b64 clock 0 cs (create sha b64 most) ≡ ok w)
        × (contents sha b64 w.flushed ≡ take most (all_bytes sha b64 cs))
        × Numbered sha b64 1 w.flushed
        × (w.summary.next_cursor ≡ 1 + length w.flushed)
        × (w.summary.captured_bytes ≡ min most (length (all_bytes sha b64 cs)))
        × (w.summary.captured_bytes + w.summary.dropped_bytes ≡ length (all_bytes sha b64 cs))
        × (finish sha b64 none w
            ≡ ok (record w.summary {
              stdout_sha256 = some (
                  encode_lower
                    (sha.finalize (sha.update sha.start (stream_part sha b64 stdout cs))));
              stderr_sha256 = some (
                  encode_lower
                    (sha.finalize (sha.update sha.start (stream_part sha b64 stderr cs))));
            }))
  unfolding finish
  record_all_lem most clock cs fits =
      let r =
        record_all-Kept most [] [] [] clock 0 cs (create sha b64 most) (create-Kept most) fits in
      let k = r.2 in
      (
        r.0,
        r.1,
        k.retained,
        k.numbered,
        k.cursor,
        k.captured,
        k.counted,
        rw (k.hashed_out, k.hashed_err) refl,
      )
