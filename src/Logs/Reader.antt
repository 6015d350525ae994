-- ===== src/Logs/Reader.antt =====
-- src/logs.rs: `read_logs`. A line of the file is its length, whether it ends with a newline, what
-- the JSON reader makes of it, and the error of its reading, if that fails; the base64 decoder is a parameter.
pub mod Pages
use procherd.Prelude.{
  ℕ, zero, suc, ◌+◌, String, Bool, true, false, not, ◌&&◌, ◌||◌, Option, none, some, List, [], ◌∷◌,
  ◌++◌, length, ltb, leb, ◌==◌, ◌⊎◌, inl, inr, if◌then◌else◌,
}
use procherd.Prelude.Texts.{Text, codes, text, num, format, text_eq}
use procherd.Error.{
  AppError, Result, ok, err, ◌>>=◌, ◌>>◌, refuse_if, usage_error, integrity_error, from_io,
}
use procherd.Model.Status.{RunStatus, created, starting, is_terminal, LogStream, stream_eq}
use procherd.Model.Run.{RunState}
use procherd.Model.Documents.{LogRecord, LogsResult, log_record_schema_version}

abbrev pub max_record_line_bytes : ℕ
max_record_line_bytes = 32768

pub record LogLine : Type 0 where
  pub len : ℕ
  pub complete : Bool
  pub parsed : Text ⊎ LogRecord
  pub failure : Option Text

-- The log file when `read_logs` opens it. `irregular` is the error of `ensure_regular_file`, and
-- `unopenable` an open error other than `NotFound`.
pub data LogFile : Type 0 where
  missing : Text → LogFile
  unopenable : Text → LogFile
  irregular : AppError → LogFile
  opened : List LogLine → LogFile

-- What the loop's body makes of a line: an error, the end of the loop, or a record.
pub data Line : Type 0 where
  fault : AppError → Line
  stop : Line
  accept : LogRecord → Line

-- The decoded bytes of a record, or the decoder's error text.
abbrev pub Decoder : Type 0
Decoder = Text → Text ⊎ Text

unfoldable pub decode_record : Decoder → LogRecord → Result Text
decode_record decode r = elim (decode r.payload) [
  | inl e ↦ err (
      integrity_error
        (format "log cursor {} contains invalid base64: {}" (num r.cursor ∷ text e ∷ [])))
  | inr bytes ↦ ok bytes
]

abbrev decoded_line : LogRecord → Result Text → Line
decoded_line r (err e) = fault e
decoded_line r (ok bytes) =
    if r.byte_count == 0 || not (length bytes == r.byte_count)
    then fault (
        integrity_error
          (format "log cursor {} byte count does not match its decoded data" (num r.cursor ∷ [])))
    else accept r

-- The tests on a parsed record, in the source's order.
check_record : Decoder → Bool → ℕ → ℕ → LogRecord → Line
unfolding decode_record
check_record decode terminal next_cursor previous r =
    if not (text_eq r.schema_version log_record_schema_version)
    then fault (integrity_error (format "unsupported log schema {}" (text r.schema_version ∷ [])))
    else if r.cursor == 0 || leb r.cursor previous
    then fault
        (integrity_error (format "log cursor {} is not strictly monotonic" (num r.cursor ∷ [])))
    else if leb next_cursor r.cursor
    then if not terminal
      then stop
      else fault (
          integrity_error
            (format "log cursor {} is outside the durable summary" (num r.cursor ∷ [])))
    else decoded_line r (decode_record decode r)

abbrev check_parsed : Decoder → Bool → ℕ → ℕ → Text ⊎ LogRecord → Line
check_parsed decode terminal next_cursor previous (inl e) =
    fault (integrity_error (format "invalid log record: {}" (text e ∷ [])))
check_parsed decode terminal next_cursor previous (inr r) =
    check_record decode terminal next_cursor previous r

-- A line that was read.
pub line_read : Decoder → Bool → ℕ → ℕ → LogLine → Line
unfolding check_record
line_read decode terminal next_cursor previous line =
    if ltb max_record_line_bytes line.len
    then fault
        (integrity_error (format "log record exceeds {} bytes" (num max_record_line_bytes ∷ [])))
    else if not line.complete
    then if terminal
      then fault (integrity_error (format "terminal run contains an incomplete log record" []))
      else stop
    else check_parsed decode terminal next_cursor previous line.parsed

pub check_line : Decoder → Bool → ℕ → ℕ → LogLine → Line
unfolding line_read
check_line decode terminal next_cursor previous line = elim line.failure [
  | some e ↦ fault (from_io e)
  | none ↦ line_read decode terminal next_cursor previous line
]

abbrev other_stream : Option LogStream → LogStream → Bool
other_stream none s = false
other_stream (some selected) s = not (stream_eq selected s)

-- A record that the loop passes over.
abbrev pub skipped : ℕ → Option LogStream → LogRecord → Bool
skipped after_cursor stream r = leb r.cursor after_cursor || other_stream stream r.stream

-- The cursor of the last record, or `after_cursor`.
abbrev pub last_cursor : ℕ → List LogRecord → ℕ
last_cursor after_cursor [] = after_cursor
last_cursor after_cursor (r ∷ []) = r.cursor
last_cursor after_cursor (r ∷ q ∷ rs) = last_cursor after_cursor (q ∷ rs)

-- The result for the loop's variables.
abbrev pub logs_result : RunState → ℕ → List LogRecord → Bool → LogsResult
logs_result state after_cursor records has_more = record {
  schema_version = codes "procherd.logs.v1";
  run_id = state.run_id;
  after_cursor = after_cursor;
  records = records;
  next_after_cursor = last_cursor after_cursor records;
  has_more = has_more;
  captured_bytes = state.logs.captured_bytes;
  dropped_bytes = state.logs.dropped_bytes;
  terminal = is_terminal state.status;
}

module _ (decode : Decoder) (state : RunState) (after_cursor limit : ℕ)
    (stream : Option LogStream) where
  -- The loop over the lines; `records` and `previous` are its variables.
  pub read_loop : ℕ → List LogRecord → List LogLine → Result (List LogRecord × Bool)
  unfolding check_line
  read_loop previous records [] = ok (records, false)
  read_loop previous records (line ∷ lines) =
      elim (check_line decode (is_terminal state.status) state.logs.next_cursor previous line) [
        | fault e ↦ err e
        | stop ↦ ok (records, false)
        | accept r ↦ elim (skipped after_cursor stream r) [
          | true ↦ read_loop r.cursor records lines
          | false ↦ elim (length records == limit) [
            | true ↦ ok (records, true)
            | false ↦ read_loop r.cursor (records ++ r ∷ []) lines
          ]
        ]
      ]

  abbrev may_be_missing : RunStatus → Bool
  may_be_missing created = true
  may_be_missing starting = true
  may_be_missing _ = false

  read_file : LogFile → Result (List LogRecord × Bool)
  unfolding read_loop
  read_file (missing e) = if may_be_missing state.status then ok ([], false) else err (from_io e)
  read_file (unopenable e) = err (from_io e)
  read_file (irregular e) = err e
  read_file (opened lines) = read_loop 0 [] lines

  unfoldable pub read_logs : LogFile → Result LogsResult
  unfolding read_file
  read_logs file = do
    refuse_if (limit == 0 || ltb 1000 limit)
        (usage_error (format "log limit must be between 1 and 1000" []))
    (records, has_more) ← read_file file
    ok (logs_result state after_cursor records has_more)
