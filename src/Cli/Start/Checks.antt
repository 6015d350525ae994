-- ===== src/Cli/Start/Checks.antt =====
-- src/cli.rs: what the checks of the arguments of `start` establish. Proofs.
use mathlib.Core.Path.{subst}
use procherd.Prelude.{
  ℕ, ◌≤◌, ◌<◌, ◌≡◌, sym, ◌∙◌, false, not, ◌||◌, ◌==◌, ◌*◌, Option, none, some, List, [], ◌∷◌, inl,
  inr, length, is_empty, ltb, arith, Bool-cases,
}
use procherd.Prelude.Texts.{Text}
use procherd.Error.{
  Result, ok, >>=-eq-ok, ok_injective, >>=-Post, Post-ok, Post, ◌>>=◌, refuse_if, refuse_if-ok,
  for_each,
}
use procherd.Model.Run.{LeaseRequests}
use procherd.Leases.Names.{validate_requests, validate_names, max_leases_per_kind}
use procherd.Logs.Writer.{Sha256}
use procherd.Readiness.Conditions.{Net, build_conditions}
use procherd.Store.RunId.{Ulid}
use procherd.Cli.Durations.{parse_duration}
use procherd.Cli.Start.{
  StartCommand, PlanEnv, Checked, optional_duration, bad_runtime, or_current, resolved, into_string,
  split_command, check_options,
}

module _ (n : Net) (u : Ulid) (sha : Sha256) where
  validate_requests-again :
      (ps ts : List Text) (r : LeaseRequests)
      → validate_requests ps ts ≡ ok r
      → validate_requests r.port_names r.temp_directory_names ≡ ok r
  unfolding validate_requests
  validate_requests-again ps ts r h =
      let (_, a, k) =
        >>=-eq-ok
          (refuse_if (ltb max_leases_per_kind (length ps) || ltb max_leases_per_kind (length ts)) _)
          _ h in
      let (_, b, k) = >>=-eq-ok (validate_names ps) _ k in
      let (_, c, k) = >>=-eq-ok (validate_names ts) _ k in
      subst (λ (r : LeaseRequests). validate_requests r.port_names r.temp_directory_names ≡ ok r)
        (ok_injective (record { port_names = ps; temp_directory_names = ts }) r k) (h ∙ sym k)

  -- What the checks of the arguments establish.
  abbrev pub IsChecked : Checked → Type 0
  IsChecked c =
      ((0 < c.max_log_bytes) × (c.max_log_bytes ≤ 1073741824))
      × ((0 < c.startup_timeout) × (c.startup_timeout ≤ 60000))
      × ((d : ℕ) → c.max_runtime ≡ some d → (0 < d) × (d ≤ 2592000000))
      × (c.runtime_grace ≤ 300000)
      × ((0 < c.readiness_timeout) × (c.readiness_timeout ≤ 3600000))
      × (is_empty c.program ≡ false)
      × (validate_requests c.lease_requests.port_names c.lease_requests.temp_directory_names
          ≡ ok c.lease_requests)

  pub some_injective : (e d : ℕ) → some e ≡ some d → e ≡ d
  some_injective e d h = cc

  runtime-bounds :
      (m : Option ℕ) → bad_runtime m ≡ false → (d : ℕ) → m ≡ some d → (0 < d) × (d ≤ 2592000000)
  unfolding bad_runtime
  runtime-bounds none b d h = cc
  runtime-bounds (some e) b d h =
      subst (λ e. (0 < e) × (e ≤ 2592000000)) (some_injective e d h) (ground arith)

  split_command-program :
      (values : List Text) (program : Text) (args : List Text)
      → split_command values ≡ ok (program, args)
      → is_empty program ≡ false
  unfolding split_command
  split_command-program [] program args h = cc
  split_command-program (p ∷ rest) program args h = elim (Bool-cases (is_empty p)) [
    | inl e ↦ cc (rw e at h)
    | inr e ↦
        subst (λ (x : Text × List Text). is_empty x.0 ≡ false)
          (ok_injective (p, rest) (program, args) (rw e at h)) e
  ]

  pub check_options-IsChecked :
      (env : PlanEnv u) (o : StartCommand) (c : Checked)
      → check_options n u sha env o ≡ ok c
      → IsChecked c
  unfolding check_options
  check_options-IsChecked env o c h = Post-ok IsChecked (check_options n u sha env o) c h (
      step (refuse_if (o.max_log_bytes == 0 || ltb (1024 * 1024 * 1024) o.max_log_bytes) _) _
        (λ _ e1. step (parse_duration o.startup_timeout) _ (λ startup _.
          step (refuse_if (startup == 0 || ltb (60 * 1000) startup) _) _ (λ _ e2.
            step (optional_duration o.max_runtime) _ (λ limit _.
              step (refuse_if (bad_runtime limit) _) _ (λ _ e3.
                step (parse_duration o.runtime_grace) _ (λ grace _.
                  step (refuse_if (ltb (5 * 60 * 1000) grace) _) _ (λ _ e4.
                    step env.current_dir _ (λ dir _.
                      step
                        (resolved (or_current o.cwd dir) (env.canonicalize (or_current o.cwd dir)))
                        _
                        (λ cwd _. step (refuse_if (not (env.is_dir cwd)) _) _ (λ _ _.
                          step (parse_duration o.readiness_timeout) _ (λ ready _.
                            step (refuse_if (ready == 0 || ltb (60 * 60 * 1000) ready) _) _ (λ _ e5.
                              step (validate_requests o.lease_port o.lease_temp_dir) _
                                (λ requests e6.
                                  step
                                    (build_conditions n o.ready_tcp o.ready_http o.ready_file
                                      o.ready_log o.ready_port requests.port_names cwd)
                                    _
                                    (λ conditions _.
                                      step (for_each (into_string env.is_utf8) o.command) _
                                        (λ values _.
                                          step (split_command values)
                                            (λ y. ok (record {
                                              max_log_bytes = o.max_log_bytes;
                                              startup_timeout = startup;
                                              max_runtime = limit;
                                              runtime_grace = grace;
                                              cwd = cwd;
                                              readiness_timeout = ready;
                                              lease_requests = requests;
                                              conditions = conditions;
                                              program = y.0;
                                              args = y.1;
                                            }))
                                            (λ x e7.
                                              let b1 = refuse_if-ok _ _ e1 in
                                              let b2 = refuse_if-ok _ _ e2 in
                                              let b4 = refuse_if-ok _ _ e4 in
                                              let b5 = refuse_if-ok _ _ e5 in
                                              (
                                                (ground arith, ground arith),
                                                (ground arith, ground arith),
                                                runtime-bounds limit (refuse_if-ok _ _ e3),
                                                ground arith,
                                                (ground arith, ground arith),
                                                split_command-program values x.0 x.1 e7,
                                                validate_requests-again o.lease_port
                                                    o.lease_temp_dir requests e6,
                                              ))))))))))))))))))
    where
      step :
          {S : Type 0} (m : Result S) (next : S → Result Checked)
          → ((s : S) → m ≡ ok s → Post IsChecked (next s))
          → Post IsChecked (m >>= next)
      step m next k = >>=-Post IsChecked m next k
