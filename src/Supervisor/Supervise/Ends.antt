-- ===== src/Supervisor/Supervise/Ends.antt =====
-- src/supervisor.rs: a supervised run ends in a final state. Proofs.
use native.Mathlib.Decide.{dec_le}
use procherd.Prelude.{
  ℕ, ◌≤◌, ◌<◌, ◌⊎◌, ltb, ◌≡◌, ◌≢◌, refl, ap, ◌∙◌, inl, inr, Bool, true, false, none, List, any,
  arith,
}
use procherd.Prelude.Texts.{Text, codes}
use procherd.Error.{AppError, Result, ok, err}
use procherd.Model.Status.{is_terminal, is_live}
use procherd.Model.Run.{RunState}
use procherd.Model.Documents.{SupervisorSpec}
use procherd.Logs.Writer.{Sha256, Base64}
use procherd.Store.Files.{
  regular, atomic_write_json, read_json, ensure_regular_file, document_limit,
}
use procherd.Store.RunId.{Ulid}
use procherd.Supervisor.Body.{continue}
use procherd.Supervisor.Failure.{mark_supervisor_failed, mark_supervisor_failed_lem}
use procherd.Supervisor.Loop.{Turn, Live, supervise_loop}
use procherd.Supervisor.Loop.Returns.{is_exited, supervise_loop-returns}
use procherd.Supervisor.Loop.Terminal.{Outcome, supervise_loop-Outcome}
use procherd.Supervisor.Startup.{Boot, BootEnv, boot}
use procherd.Supervisor.Startup.Documents.{
  Doc, HasLength, IsLive, IsFinished, IsSettled, AfterBoot, boot-AfterBoot,
}
use procherd.Supervisor.Supervise.{MarkEnv, finish_run, run_loop, supervise_locked, supervise}

read_json-fits :
    (path : Text) (n : ℕ) (s : RunState)
    → n ≤ document_limit
    → read_json path (regular n (inr s)) ≡ ok s
unfolding read_json ensure_regular_file
read_json-fits path n s l = ground arith

-- The state document says how the run ended.
abbrev pub FinalDoc : Boot → Type 0
FinalDoc b = (n : ℕ) × (s : RunState) × (b.state_file ≡ regular n (inr s)) × IsFinished s

-- The state is printed in a document that is longer than the code reads.
abbrev pub TooLong : BootEnv → Boot → Type 0
TooLong env b =
    (s : RunState) × (b.state_file ≡ regular (env.printed s) (inr s))
    × (document_limit < env.printed s)

not_terminal : (s : RunState) → is_live s.status ≡ true → is_terminal s.status ≡ false
unfolding is_live is_terminal
not_terminal s p = ground arith

-- A document that is too long to be read stays as it is.
unread :
    (mark : MarkEnv) (e : AppError) (n : ℕ) (s : RunState)
    → document_limit < n
    → mark_supervisor_failed
        (codes "state.json")
        mark.updated_at
        mark.finished_at
        mark.outcome
        mark.len
        e
        (regular n (inr s))
      ≡ regular n (inr s)
unfolding mark_supervisor_failed read_json ensure_regular_file
unread mark e n s g = let long : ltb document_limit n ≡ true = ground arith in rw long refl

too_long :
    (env : BootEnv) (mark : MarkEnv) (e : AppError) (b : Boot) (n : ℕ) (s : RunState)
    → b.state_file ≡ regular n (inr s)
    → HasLength env n s
    → document_limit < n
    → TooLong env (finish_run mark (err e, b)).1
unfolding finish_run
too_long env mark e b n s h (inl fits) g = absurd (omega arith)
too_long env mark e b n s h (inr w) g =
    (s, rw h (unread mark e n s g ∙ ap (λ n. regular n (inr s)) w), omega arith)

marked-FinalDoc :
    (env : BootEnv) (mark : MarkEnv) (e : AppError) (b : Boot)
    → mark.outcome ≡ none
    → Doc env IsSettled b
    → FinalDoc (finish_run mark (err e, b)).1 ⊎ TooLong env (finish_run mark (err e, b)).1
unfolding finish_run
marked-FinalDoc env mark e b o (n, s, h, w, p) = elim (dec_le n document_limit) [
  | yes l ↦
      let lem =
        mark_supervisor_failed_lem (codes "state.json") mark.updated_at mark.finished_at mark.len e
          (regular n (inr s)) s (read_json-fits _ n s l) in
      elim p [
        | inl p ↦
            let (d, f, t, _, x, _, held) = lem.1 (not_terminal s p) in
            inl (mark.len, d, rw (h, o) f, (rw t (unfold is_terminal in refl), x, held))
        | inr (t, x, held) ↦ inl (n, s, rw (h, o) (lem.0 t), (t, x, held))
      ]
  | no g ↦ inr (too_long env mark e b n s h w (omega arith))
]

module _ (u : Ulid) (sha : Sha256) (b64 : Base64) (env : BootEnv) (turns : List Turn) where
  -- After the loop: a final document, or an error with a settled one.
  abbrev AfterLoop : Result Bool × Boot → Type 0
  AfterLoop (ok _, b) = FinalDoc b
  AfterLoop (err _, b) = Doc env IsSettled b

  looped-AfterLoop :
      (b : Boot) (r : Result Bool × Live sha b64)
      → Outcome sha b64 r
      → r.0 ≢ ok false
      → AfterLoop (r.0, record b { state_file = atomic_write_json (env.printed r.1.disk) r.1.disk })
  looped-AfterLoop b (ok true, l) h g =
      let (t, _, x, _, _, held) = h in (env.printed l.disk, l.disk, refl, (t, x, held))
  looped-AfterLoop b (ok false, l) h g = absurd (g refl)
  looped-AfterLoop b (err e, l) h g = (env.printed l.disk, l.disk, refl, inr refl, inl h)

  module _ (exits : any (λ (t : Turn). is_exited t.waited) turns ≡ true) where
    supervise_locked-AfterLoop :
        (b : Boot) → Doc env IsLive b → AfterLoop (supervise_locked u sha b64 env turns b)
    unfolding supervise_locked run_loop continue
    supervise_locked-AfterLoop b d =
        looped (boot u sha b64 env b) (boot-AfterBoot u sha b64 env b d)
      where
        looped :
            (r : Result (SupervisorSpec × Live sha b64) × Boot)
            → AfterBoot u sha b64 env r
            → AfterLoop (continue r (run_loop u sha b64 env turns))
        looped (ok (spec, l), c) p =
            looped-AfterLoop c (supervise_loop sha b64 spec turns l)
              (supervise_loop-Outcome sha b64 spec turns l p)
              (supervise_loop-returns sha b64 spec turns l exits)
        looped (err e, c) p = p

    supervise-ends_locked :
        (mark : MarkEnv) (r : Result Bool × Boot)
        → mark.outcome ≡ none
        → AfterLoop r
        → FinalDoc (finish_run mark r).1 ⊎ TooLong env (finish_run mark r).1
    unfolding finish_run
    supervise-ends_locked mark (ok _, b) o h = inl h
    supervise-ends_locked mark (err e, b) o h = marked-FinalDoc env mark e b o h

    -- A supervisor that has its lock, from a state document that is live and either short enough to be
    -- read or as long as its state is printed, with a child whose status is found in one of the
    -- iterations: whatever else fails, in the start of the supervisor or in the
    -- loop, if the write of the failed state goes through when it is made, then the state document that
    -- is left is final, with an exit record and no lease held, or the state in it is printed in more
    -- than the 4 MiB that the code reads, so that a failure cannot be recorded in it.
    pub supervise-ends :
        (mark : MarkEnv) (b : Boot)
        → Doc env IsLive b
        → mark.outcome ≡ none
        → FinalDoc (supervise u sha b64 env turns mark (ok tt) b).1
          ⊎ TooLong env (supervise u sha b64 env turns mark (ok tt) b).1
    unfolding supervise
    supervise-ends mark b d o = supervise-ends_locked mark _ o (supervise_locked-AfterLoop b d)
