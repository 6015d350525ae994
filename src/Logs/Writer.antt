-- ===== src/Logs/Writer.antt =====
-- src/logs.rs: `LogWriter`. The SHA-256 state is the `sha2` crate's and the base64 text is the
-- `base64` crate's: both are parameters. The file is the list of the records that were flushed.
pub mod Retention
pub mod Totals
use procherd.Prelude.{
  ◌≡◌, ℕ, zero, suc, ◌+◌, ◌-◌, min, Bool, true, false, Option, none, some, List, [], ◌∷◌, ◌++◌, ltb,
  take, length, saturating_add, if◌then◌else◌,
}
use procherd.Prelude.Texts.{Text}
use procherd.Hex.{encode_lower}
use procherd.Error.{Result, ok, err, ◌>>=◌, from_io, WriteError, from_write}
use procherd.Model.Status.{LogStream, stdout, stderr, base64}
use procherd.Model.Run.{LogSummary, new_summary}
use procherd.Model.Documents.{LogRecord, log_record_schema_version}

pub record LogChunk : Type 0 where
  pub stream : LogStream
  pub bytes : Text

-- `update` takes the bytes in, and `finalize` gives the digest's bytes.
pub record Sha256 : Type 1 where
  pub Hasher : Type 0
  pub start : Hasher
  pub update : Hasher → Text → Hasher
  pub finalize : Hasher → Text

-- `STANDARD.encode` and `STANDARD.decode`.
pub record Base64 : Type 0 where
  pub encode : Text → Text
  pub decode : Text → Option Text

module _ (sha : Sha256) (b64 : Base64) where
  open sha use {Hasher, start, update, finalize}
  open b64 use {encode}

  pub record LogWriter : Type 0 where
    pub flushed : List LogRecord
    pub summary : LogSummary
    pub stdout_digest : Hasher
    pub stderr_digest : Hasher

  unfoldable pub create : ℕ → LogWriter
  unfolding new_summary
  create max_bytes = record {
    flushed = [];
    summary = new_summary max_bytes;
    stdout_digest = start;
    stderr_digest = start;
  }

  pub digest_stream : LogStream → Text → LogWriter → LogWriter
  digest_stream stdout bytes w = record w { stdout_digest = update w.stdout_digest bytes }
  digest_stream stderr bytes w = record w { stderr_digest = update w.stderr_digest bytes }

  -- The retention budget that is left.
  abbrev pub available : LogWriter → ℕ
  available w = w.summary.max_bytes - w.summary.captured_bytes

  -- The record of the captured bytes.
  abbrev pub new_record : ℕ → LogStream → Text → LogWriter → LogRecord
  new_record now stream bytes w = record {
    schema_version = log_record_schema_version;
    cursor = w.summary.next_cursor;
    timestamp_ms = now;
    stream = stream;
    encoding = base64;
    payload = encode bytes;
    byte_count = length bytes;
  }

  append_record : ℕ → LogStream → Text → LogWriter → LogWriter
  append_record now stream bytes w = record w {
    flushed = w.flushed ++ new_record now stream bytes w ∷ [];
    summary = record w.summary {
      next_cursor = saturating_add w.summary.next_cursor 1;
      captured_bytes = saturating_add w.summary.captured_bytes (length bytes);
    };
  }

  add_dropped : ℕ → LogWriter → LogWriter
  add_dropped dropped w = record w {
    summary = record w.summary { dropped_bytes = saturating_add w.summary.dropped_bytes dropped };
  }

  -- `LogWriter::record`. `outcome` is the error of the write or the flush, if one fails.
  pub log_record : ℕ → Option WriteError → LogChunk → LogWriter → Result LogWriter
  unfolding digest_stream append_record add_dropped
  log_record now outcome chunk w =
      let w' = digest_stream chunk.stream chunk.bytes w in
      let captured = min (length chunk.bytes) (available w) in
      let dropped = length chunk.bytes - captured in
      let written : Result LogWriter = elim outcome [
        | some e ↦ err (from_write e)
        | none ↦ ok (append_record now chunk.stream (take captured chunk.bytes) w')
      ] in
      if ltb 0 captured
      then (do w'' ← written; ok (add_dropped dropped w''))
      else ok (add_dropped dropped w')

  pub capturable_bytes : LogWriter → LogChunk → Text
  capturable_bytes w chunk = take (min (length chunk.bytes) (available w)) chunk.bytes

  pub snapshot : LogWriter → LogSummary
  snapshot w = w.summary

  -- `outcome` is the error text of the flush or the sync, if one fails.
  pub finish : Option Text → LogWriter → Result LogSummary
  finish (some e) w = err (from_io e)
  finish none w = ok (record w.summary {
    stdout_sha256 = some (encode_lower (finalize w.stdout_digest));
    stderr_sha256 = some (encode_lower (finalize w.stderr_digest));
  })
