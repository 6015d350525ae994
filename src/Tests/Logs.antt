-- ===== src/Tests/Logs.antt =====
-- src/logs.rs at concrete values.
use procherd.Prelude.{ℕ, ◌+◌, ◌≡◌, ◌≤◌, refl, true, none, some, List, [], ◌∷◌, arith, length, inr}
use procherd.Prelude.Texts.{codes, text_eq}
use procherd.Hex.{encode_lower}
use procherd.Error.{ok}
use procherd.Model.Status.{RunStatus, stdout, stderr, base64}
use procherd.Model.Documents.{LogRecord, log_record_schema_version}
use procherd.Logs.Writer.{LogChunk, LogWriter, create, finish}
use procherd.Logs.Writer.Retention.{contents, Numbered}
use procherd.Logs.Writer.Totals.{record_all, record_all_lem}
use procherd.Logs.Reader.{LogFile, opened, logs_result, last_cursor, read_logs}
use procherd.Logs.Reader.Pages.{PageEnd, read_logs-PageEnd}
use procherd.Tests.Samples.{plain_hash, plain_base64, sample_state}

abbrev chunks : List LogChunk
chunks =
    record { stream = stdout; bytes = codes "hello" }
    ∷ record { stream = stderr; bytes = codes "world" }
    ∷ []

-- A budget of seven bytes.
record_all_lem_example :
    (w : LogWriter plain_hash plain_base64) × (record_all plain_hash plain_base64
        (λ i. i)
        0
        chunks
        (create plain_hash plain_base64 7)
      ≡ ok w)
    × (contents plain_hash plain_base64 w.flushed ≡ codes "hellowo")
    × Numbered plain_hash plain_base64 1 w.flushed
    × (w.summary.next_cursor ≡ 1 + length w.flushed)
    × (w.summary.captured_bytes ≡ 7)
    × (w.summary.captured_bytes + w.summary.dropped_bytes ≡ 10)
    × (finish plain_hash plain_base64 none w
        ≡ ok (record w.summary {
          stdout_sha256 = some (encode_lower (codes "hello"));
          stderr_sha256 = some (encode_lower (codes "world"));
        }))
record_all_lem_example =
    record_all_lem plain_hash plain_base64
      (record {
        update-append = λ h s t. mathlib.Core.List.append_assoc h s t;
        update-nil = λ h. mathlib.Core.List.append-nil h;
        decode-encode = λ s. refl;
      })
      7 (λ i. i) chunks (omega arith)

abbrev record_at : ℕ → LogRecord
record_at cursor = record {
  schema_version = log_record_schema_version;
  cursor = cursor;
  timestamp_ms = 5;
  stream = stdout;
  encoding = base64;
  payload = codes "ab";
  byte_count = 2;
}

abbrev two_lines : LogFile
two_lines = opened (
    record { len = 90; complete = true; parsed = inr (record_at 1); failure = none }
    ∷ record { len = 90; complete = true; parsed = inr (record_at 2); failure = none }
    ∷ [])

-- A page of one record of two.
read_logs-PageEnd_example :
    PageEnd (λ s. inr s) (sample_state RunStatus.exited) 0 1 none (record_at 1 ∷ []) true
    × (1 ≤ 1)
    × (1 ≤ 1000)
    × (last_cursor 0 (record_at 1 ∷ []) ≡ 1)
unfolding read_logs text_eq
read_logs-PageEnd_example =
    read_logs-PageEnd (λ s. inr s) (sample_state RunStatus.exited) 0 1 none two_lines
      (logs_result (sample_state RunStatus.exited) 0 (record_at 1 ∷ []) true) refl
