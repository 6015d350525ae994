-- ===== src/Logs/Reader/Pages.antt =====
-- src/logs.rs: what a page of the log holds. Proofs.
use procherd.Prelude.{
  ℕ, ◌≤◌, ◌<◌, ◌≡◌, refl, ◌∙◌, inl, inr, Bool, true, false, ◌||◌, Option, none, some, List, [], ◌∷◌,
  ◌++◌, length, length-append, arith, ltb, ◌==◌, ==_iff, All, All-append, Bool-cases,
}
use procherd.Prelude.Texts.{Text}
use procherd.Error.{AppError, from_io, Result, ok, refuse_if, refuse_if-ok, ok_injective, >>=-eq-ok}
use procherd.Model.Status.{is_terminal, LogStream}
use procherd.Model.Run.{RunState}
use procherd.Model.Documents.{LogRecord, LogsResult}
use procherd.Logs.Reader.{
  LogLine, LogFile, opened, missing, unopenable, irregular, Line, fault, stop, accept, Decoder,
  line_read, check_line, skipped, read_loop, read_file, read_logs, logs_result, last_cursor,
}

-- The cursors rise strictly from above `lo`, and end at most at `hi`.
abbrev pub Ascending : ℕ → List LogRecord → ℕ → Type 0
Ascending lo [] hi = lo ≤ hi
Ascending lo (r ∷ rs) hi = (lo < r.cursor) × Ascending r.cursor rs hi

Ascending-append :
    (lo hi : ℕ) (rs : List LogRecord) (r : LogRecord)
    → Ascending lo rs hi
    → hi < r.cursor
    → Ascending lo (rs ++ r ∷ []) r.cursor
Ascending-append lo hi [] r a h = (omega arith, omega arith)
Ascending-append lo hi (q ∷ rs) r a h = (a.0, Ascending-append q.cursor hi rs r a.1 h)

Ascending-relax :
    (lo hi hi' : ℕ) (rs : List LogRecord) → hi ≤ hi' → Ascending lo rs hi → Ascending lo rs hi'
Ascending-relax lo hi hi' [] h a = omega arith
Ascending-relax lo hi hi' (r ∷ rs) h a = (a.0, Ascending-relax r.cursor hi hi' rs h a.1)

-- A record that a line yields is later than the one before, and committed.
read_accepted :
    (decode : Decoder) (terminal : Bool) (next previous : ℕ) (line : LogLine) (r : LogRecord)
    → line_read decode terminal next previous line ≡ accept r
    → (previous < r.cursor) × (r.cursor < next)
unfolding line_read
read_accepted decode terminal next previous line r h = ground arith

accepted :
    (decode : Decoder) (terminal : Bool) (next previous : ℕ) (line : LogLine) (r : LogRecord)
    → check_line decode terminal next previous line ≡ accept r
    → (previous < r.cursor) × (r.cursor < next)
unfolding check_line
accepted decode terminal next previous line r h = go line.failure h
  where
    go :
        (f : Option Text)
        → (elim f [
          | some e ↦ fault (from_io e)
          | none ↦ line_read decode terminal next previous line
        ])
          ≡ accept r
        → (previous < r.cursor) × (r.cursor < next)
    go (some e) h = cc
    go none h = read_accepted decode terminal next previous line r h

data LineIs (l : Line) : Type 0 where
  is_fault : (e : AppError) → l ≡ fault e → LineIs l
  is_stop : l ≡ stop → LineIs l
  is_accept : (r : LogRecord) → l ≡ accept r → LineIs l

Line-cases : (l : Line) → LineIs l
Line-cases (fault e) = is_fault e refl
Line-cases stop = is_stop refl
Line-cases (accept r) = is_accept r refl

positive : (limit : ℕ) → (limit == 0 || ltb 1000 limit) ≡ false → 1 ≤ limit
positive limit h = ground arith

at_most_1000 : (limit : ℕ) → (limit == 0 || ltb 1000 limit) ≡ false → limit ≤ 1000
at_most_1000 limit h = ground arith

pair_eq :
    (a b : List LogRecord) (x y : Bool)
    → ◌≡◌ {A = Result (List LogRecord × Bool)} (ok (a, x)) (ok (b, y))
    → (a ≡ b) × (x ≡ y)
pair_eq a b x y h = (cc, cc)

module _ (decode : Decoder) (state : RunState) (after limit : ℕ) (stream : Option LogStream) where
  -- A record that a page may hold.
  abbrev pub Wanted : LogRecord → Type 0
  Wanted r = (skipped after stream r ≡ false) × (r.cursor < state.logs.next_cursor)

  -- The loop's records when the last cursor was `hi`.
  pub record Page (rs : List LogRecord) (hi : ℕ) : Type 0 where
    pub ascending : Ascending 0 rs hi
    pub wanted : All Wanted rs
    pub few : length rs ≤ limit

  -- The loop's result.
  pub record PageEnd (rs : List LogRecord) (more : Bool) : Type 0 where
    pub hi : ℕ
    pub page : Page rs hi
    pub full : more ≡ true → length rs ≡ limit

  finished :
      (records out : List LogRecord) (hi : ℕ) (m more : Bool)
      → ◌≡◌ {A = Result (List LogRecord × Bool)} (ok (records, m)) (ok (out, more))
      → Page records hi
      → (m ≡ true → length records ≡ limit)
      → PageEnd out more
  finished records out hi m more h p f =
      let (e, x) = pair_eq records out m more h in
      record { hi = hi; page = rw (← e) p; full = λ q. rw (← e) (f (x ∙ q)) }

  -- The page with one more record.
  pushed :
      (records : List LogRecord) (previous : ℕ) (r : LogRecord)
      → Page records previous
      → previous < r.cursor
      → r.cursor < state.logs.next_cursor
      → skipped after stream r ≡ false
      → (length records == limit) ≡ false
      → Page (records ++ r ∷ []) r.cursor
  pushed records previous r p lo hi k n = record {
    ascending = Ascending-append 0 previous records r p.ascending lo;
    wanted = All-append Wanted records (r ∷ []) p.wanted ((k, hi), tt);
    few = ground (arith, length-append records (r ∷ []), p.few);
  }

  read_loop-PageEnd :
      (previous : ℕ) (records : List LogRecord) (lines : List LogLine) (out : List LogRecord)
      (more : Bool)
      → read_loop decode state after limit stream previous records lines ≡ ok (out, more)
      → Page records previous
      → PageEnd out more
  unfolding read_loop
  read_loop-PageEnd previous records [] out more h p =
      finished records out previous false more h p (λ q. cc)
  read_loop-PageEnd previous records (line ∷ lines) out more h p =
      elim (Line-cases
        (check_line decode (is_terminal state.status) state.logs.next_cursor previous line)) [
          | is_fault e q ↦ absurd (cc (rw (q, read_loop) at h))
          | is_stop q ↦
              finished records out previous false more (rw (q, read_loop) at h) p (λ q. cc)
          | is_accept r q ↦
              let (lo, hi) = accepted decode _ _ previous line r q in
              elim (Bool-cases (skipped after stream r)) [
                | inl k ↦
                    read_loop-PageEnd r.cursor records lines out more (rw (q, k, read_loop) at h)
                      (record {
                        ascending =
                            Ascending-relax 0 previous r.cursor records (omega arith) p.ascending;
                        wanted = p.wanted;
                        few = p.few;
                      })
                | inr k ↦ elim (Bool-cases (length records == limit)) [
                  | inl n ↦
                      finished records out previous true more (rw (q, k, n, read_loop) at h) p
                        (λ _. (==_iff (length records) limit).0 n)
                  | inr n ↦
                      read_loop-PageEnd r.cursor (records ++ r ∷ []) lines out more
                        (rw (q, k, n, read_loop) at h) (pushed records previous r p lo hi k n)
                ]
              ]
        ]

  read_file-PageEnd :
      (file : LogFile) (out : List LogRecord) (more : Bool)
      → read_file decode state after limit stream file ≡ ok (out, more)
      → PageEnd out more
  unfolding read_file
  read_file-PageEnd (missing e) out more h =
      finished [] out 0 false more (ground arith)
        (record { ascending = omega arith; wanted = tt; few = omega arith }) (λ q. cc)
  read_file-PageEnd (unopenable e) out more h = absurd (cc)
  read_file-PageEnd (irregular e) out more h = absurd (cc)
  read_file-PageEnd (opened lines) out more h =
      read_loop-PageEnd 0 [] lines out more h
        (record { ascending = omega arith; wanted = tt; few = omega arith })

  -- Whatever the file holds, a page that `read_logs` returns has at most `limit` records, of which
  -- there are 1 to 1000; their cursors rise strictly, lie after `after` and before the cursor of the
  -- durable summary; they are of the selected stream; and if there are more, the page is full.
  pub read_logs-PageEnd :
      (file : LogFile) (r : LogsResult)
      → read_logs decode state after limit stream file ≡ ok r
      → PageEnd r.records r.has_more
        × (1 ≤ limit)
        × (limit ≤ 1000)
        × (r.next_after_cursor ≡ last_cursor after r.records)
  unfolding read_logs
  read_logs-PageEnd file r h =
      let (_, e, h1) = >>=-eq-ok (refuse_if (limit == 0 || ltb 1000 limit) _) _ h in
      let ((out, more), f, h2) = >>=-eq-ok (read_file decode state after limit stream file) _ h1 in
      let l = refuse_if-ok _ _ e in
      rw (← ok_injective (logs_result state after out more) r h2)
        (read_file-PageEnd file out more f, positive limit l, at_most_1000 limit l, refl)
