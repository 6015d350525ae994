-- ===== src/Supervisor/Stopping.antt =====
-- src/supervisor.rs: stop requests, the signals that follow from them, and the exit record. What
-- the operating system answers is an argument; an `Instant` is a number of nanoseconds.
use procherd.Prelude.{
  ℕ, ◌+◌, ◌*◌, ◌≡◌, Bool, true, false, ◌&&◌, ◌||◌, Option, none, some, ◌==◌, arith, &&-eq_true,
  if◌then◌else◌, [],
}
use procherd.Prelude.Texts.{Text, codes, format, text_eq}
use procherd.Error.{Result, ok, err, integrity_error, from_io}
use procherd.Model.Status.{ExitReason}
use procherd.Model.Run.{Code, ExitInfo, CleanupInfo, RunState}
use procherd.Model.Documents.{SupervisorSpec, StopRequest}
use procherd.Store.Files.{Node, absent, symlink, irregular, unopenable, regular, read_json}

-- `io::ErrorKind`, as far as the code tells its values apart.
pub data IoKind : Type 0 where
  not_found invalid_input other : IoKind

pub record IoError : Type 0 where
  pub kind : IoKind
  pub raw_os_error : Option Code
  pub message : Text

abbrev gone_kind : IoKind → Bool
gone_kind not_found = true
gone_kind invalid_input = true
gone_kind other = false

abbrev is_esrch : Option Code → Bool
is_esrch (some (Code.positive n)) = n == 3
is_esrch _ = false

unfoldable pub is_process_gone : IoError → Bool
is_process_gone e = gone_kind e.kind || is_esrch e.raw_os_error

pub record Stopping : Type 0 where
  pub deadline : ℕ
  pub force_sent : Bool
  pub reason : ExitReason

abbrev pub with_cleanup : (CleanupInfo → CleanupInfo) → RunState → RunState
with_cleanup f s = record s { cleanup = f s.cleanup }

-- The result of `start_kill`: false when the group is gone already.
unfoldable pub start_kill_tolerant : Option IoError → Result Bool
start_kill_tolerant none = ok true
start_kill_tolerant (some e) = if is_process_gone e then ok false else err (from_io e.message)

new_stopping : ℕ → ℕ → ExitReason → Stopping
new_stopping instant grace_ms reason = record {
  deadline = instant + grace_ms * 1000000;
  force_sent = false;
  reason = reason;
}

-- On Unix: SIGTERM to the process group, and a deadline. `signal` is what `child.signal(15)`
-- answers.
unfoldable pub request_stop : Option IoError → ℕ → ℕ → ExitReason → Result Stopping
unfolding new_stopping
request_stop none instant grace_ms reason = ok (new_stopping instant grace_ms reason)
request_stop (some e) instant grace_ms reason =
    if is_process_gone e then ok (new_stopping instant grace_ms reason) else err (from_io e.message)

abbrev pub mark_cleanup : RunState → RunState
mark_cleanup = with_cleanup (λ c. record c { descendant_cleanup_triggered = true })

-- The request names this run, and holds its owner token.
abbrev pub is_authentic : SupervisorSpec → StopRequest → Bool
is_authentic spec r =
    (text_eq r.schema_version (codes "procherd.stop-request.v1") && text_eq r.run_id spec.run_id)
    && text_eq r.owner_token spec.owner_token

abbrev request_path : Text
request_path = codes "stop.request.json"

checked_request : Option Text → SupervisorSpec → Result StopRequest → Result (Option StopRequest)
checked_request removal spec (err e) = err e
checked_request none spec (ok r) =
    if is_authentic spec r
    then ok (some r)
    else err
        (integrity_error (format "stop request failed run identity or owner-token validation" []))
checked_request (some e) spec (ok r) =
    if is_authentic spec r
    then err (from_io e)
    else err
        (integrity_error (format "stop request failed run identity or owner-token validation" []))

-- `removal` is the error text of `remove_file`, if it fails. A missing file is no request.
unfoldable pub read_stop_request :
    Option Text → SupervisorSpec → Node StopRequest → Result (Option StopRequest)
unfolding checked_request
read_stop_request removal spec (absent e) = ok none
read_stop_request removal spec symlink =
    checked_request removal spec (read_json request_path symlink)
read_stop_request removal spec irregular =
    checked_request removal spec (read_json request_path irregular)
read_stop_request removal spec (unopenable e) =
    checked_request removal spec (read_json request_path (unopenable e))
read_stop_request removal spec (regular n d) =
    checked_request removal spec (read_json request_path (regular n d))

pub record ExitStatus : Type 0 where
  pub code : Option Code
  pub signal : Option Code

unfoldable pub exit_info : ExitStatus → ExitReason → ℕ → ExitInfo
exit_info status reason finished_at_ms = record {
  code = status.code;
  signal = status.signal;
  reason = reason;
  finished_at_ms = finished_at_ms;
}

checked_authentic :
    (removal : Option Text) (spec : SupervisorSpec) (read : Result StopRequest) (r : StopRequest)
    → checked_request removal spec read ≡ ok (some r)
    → is_authentic spec r ≡ true
unfolding checked_request
checked_authentic removal spec (err e) r h = cc
checked_authentic none spec (ok q) r h = ground arith
checked_authentic (some e) spec (ok q) r h = ground arith

-- A stop request is acted on only if it has the schema of a stop request, names the run of the
-- specification and carries its owner token.
pub read_stop_request-authentic :
    (removal : Option Text) (spec : SupervisorSpec) (node : Node StopRequest) (r : StopRequest)
    → read_stop_request removal spec node ≡ ok (some r)
    → (text_eq r.schema_version (codes "procherd.stop-request.v1") ≡ true)
      × (text_eq r.run_id spec.run_id ≡ true)
      × (text_eq r.owner_token spec.owner_token ≡ true)
unfolding read_stop_request
read_stop_request-authentic removal spec node r h =
    let (ab, c) = &&-eq_true _ _ (authentic node h) in let (a, b) = &&-eq_true _ _ ab in (a, b, c)
  where
    authentic :
        (node : Node StopRequest)
        → read_stop_request removal spec node ≡ ok (some r)
        → is_authentic spec r ≡ true
    authentic (absent e) h = cc
    authentic symlink h = checked_authentic removal spec _ r h
    authentic irregular h = checked_authentic removal spec _ r h
    authentic (unopenable e) h = checked_authentic removal spec _ r h
    authentic (regular n d) h = checked_authentic removal spec _ r h
