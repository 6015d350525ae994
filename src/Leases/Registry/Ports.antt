-- ===== src/Leases/Registry/Ports.antt =====
-- src/leases.rs: no port is leased twice. Proofs.
use mathlib.Core.List.{append-nil, append_assoc}
use mathlib.Core.Path.{subst}
use procherd.Prelude.{
  ℕ, zero, suc, ◌+◌, ◌≡◌, refl, sym, ap, ◌∙◌, Bool, true, false, List, [], ◌∷◌, ◌++◌, any, ◌==◌,
  arith, All, NotIn, Distinct, NotIn-append, Distinct-snoc, not, Bool-cases, inl, inr,
}
use procherd.Prelude.Texts.{Text, text_eq, text_eq_refl}
use procherd.Error.{Result, ok, >>=-eq-ok}
use procherd.Leases.Registry.{
  PortRegistryEntry, PortRegistry, ReservedPort, ports_of, prune_stale, release_entries, Bind,
  allocate, reserve_loop, reserve_update, max_allocation_attempts,
}

not_member : (p : ℕ) (ps : List ℕ) → any (λ q. p == q) ps ≡ false → NotIn p ps
not_member p [] h = tt
not_member p (q ∷ ps) h = ground (arith, not_member p ps)

-- An allocated port is not among the unavailable ones.
allocate-NotIn :
    (bind : Bind) (attempts i : ℕ) (unavailable : List ℕ) (port j : ℕ)
    → allocate bind attempts i unavailable ≡ ok (port, j)
    → NotIn port unavailable
unfolding allocate
allocate-NotIn bind zero i unavailable port j h = absurd (cc)
allocate-NotIn bind (suc attempts) i unavailable port j h =
    ground
      (arith, allocate-NotIn bind attempts (i + 1) unavailable port j, not_member port unavailable)

-- The entries kept by a filter keep their ports apart.
NotIn-prune :
    (active : Text → Bool) (p : ℕ) (es : List PortRegistryEntry)
    → NotIn p (ports_of es)
    → NotIn p (ports_of (prune_stale active es))
unfolding prune_stale
NotIn-prune active p [] h = tt
NotIn-prune active p (e ∷ es) h = ground (arith, NotIn-prune active p es h.1)

prune_stale-Distinct :
    (active : Text → Bool) (es : List PortRegistryEntry)
    → Distinct (ports_of es)
    → Distinct (ports_of (prune_stale active es))
unfolding prune_stale
prune_stale-Distinct active [] h = tt
prune_stale-Distinct active (e ∷ es) h =
    ground (arith, prune_stale-Distinct active es h.1, NotIn-prune active e.port es h.0)

NotIn-release :
    (run_id : Text) (p : ℕ) (es : List PortRegistryEntry)
    → NotIn p (ports_of es)
    → NotIn p (ports_of (release_entries run_id es))
unfolding release_entries
NotIn-release run_id p [] h = tt
NotIn-release run_id p (e ∷ es) h = ground (arith, NotIn-release run_id p es h.1)

release_entries-Distinct :
    (run_id : Text) (es : List PortRegistryEntry)
    → Distinct (ports_of es)
    → Distinct (ports_of (release_entries run_id es))
unfolding release_entries
release_entries-Distinct run_id [] h = tt
release_entries-Distinct run_id (e ∷ es) h =
    ground (arith, release_entries-Distinct run_id es h.1, NotIn-release run_id e.port es h.0)

-- `kept` are the entries that pass the test, each as often as before and in the same order.
pub data Retained (test : PortRegistryEntry → Bool)
    : List PortRegistryEntry → List PortRegistryEntry → Type 0 where
  none_left : Retained test [] []
  keeps :
      (e : PortRegistryEntry) (es kept : List PortRegistryEntry)
      → test e ≡ true
      → Retained test es kept
      → Retained test (e ∷ es) (e ∷ kept)
  drops :
      (e : PortRegistryEntry) (es kept : List PortRegistryEntry)
      → test e ≡ false
      → Retained test es kept
      → Retained test (e ∷ es) kept

abbrev pub of_active : (Text → Bool) → PortRegistryEntry → Bool
of_active active e = active e.run_id

abbrev pub of_another : Text → PortRegistryEntry → Bool
of_another run_id e = not (text_eq e.run_id run_id)

prune_stale-Retained :
    (active : Text → Bool) (es : List PortRegistryEntry)
    → Retained (of_active active) es (prune_stale active es)
unfolding prune_stale
prune_stale-Retained active [] = none_left
prune_stale-Retained active (e ∷ es) = elim (Bool-cases (active e.run_id)) [
  | inl y ↦ rw y (keeps e es (prune_stale active es) y (prune_stale-Retained active es))
  | inr n ↦ rw n (drops e es (prune_stale active es) n (prune_stale-Retained active es))
]

-- Releasing the entries that are retained of a list followed by new ones of the run.
release_entries-Retained :
    (run_id : Text) (es new : List PortRegistryEntry)
    → All (λ e. e.run_id ≡ run_id) new
    → Retained (of_another run_id) es (release_entries run_id (es ++ new))
unfolding release_entries
release_entries-Retained run_id [] [] a = none_left
release_entries-Retained run_id [] (e ∷ new) (p, a) =
    rw (p, text_eq_refl run_id) (release_entries-Retained run_id [] new a)
release_entries-Retained run_id (e ∷ es) new a = elim (Bool-cases (text_eq e.run_id run_id)) [
  | inl y ↦ rw y (
      drops e es (release_entries run_id (es ++ new)) (ground arith)
        (release_entries-Retained run_id es new a))
  | inr n ↦ rw n (
      keeps e es (release_entries run_id (es ++ new)) (ground arith)
        (release_entries-Retained run_id es new a))
]

-- What the loop has allocated.
abbrev pub Allocated : Text → List PortRegistryEntry → List ReservedPort → List Text → Type 0
Allocated run_id [] [] [] = Unit
Allocated run_id (e ∷ es) (r ∷ rs) (n ∷ ns) =
    ((e.run_id ≡ run_id) × (e.name ≡ n) × (r.name ≡ n) × (r.port ≡ e.port) × (r.listener ≡ true))
    × Allocated run_id es rs ns
Allocated run_id _ _ _ = ⊥

registry_eq :
    (registry after : PortRegistry) (out : List PortRegistryEntry) (rs reserved : List ReservedPort)
    → ◌≡◌ {A = Result (PortRegistry × List ReservedPort)}
        (ok (record registry { entries = out }, rs))
        (ok (after, reserved))
    → (after ≡ record registry { entries = out }) × (reserved ≡ rs)
registry_eq registry after out rs reserved h = (cc, cc)

both_eq :
    (es out : List PortRegistryEntry) (rs reserved : List ReservedPort)
    → ◌≡◌ {A = Result (List PortRegistryEntry × List ReservedPort)}
        (ok (es, rs))
        (ok (out, reserved))
    → (out ≡ es) × (reserved ≡ rs)
both_eq es out rs reserved h = (cc, cc)

ports_of-snoc :
    (es : List PortRegistryEntry) (e : PortRegistryEntry)
    → ports_of (es ++ e ∷ []) ≡ ports_of es ++ e.port ∷ []
ports_of-snoc [] e = refl
ports_of-snoc (x ∷ es) e = ap (λ (r : List ℕ). x.port ∷ r) (ports_of-snoc es e)

reserve_loop_lem :
    (bind : Bind) (clock : ℕ → ℕ) (run_id : Text) (i : ℕ) (unavailable : List ℕ)
    (es : List PortRegistryEntry) (rs : List ReservedPort) (names : List Text)
    (out : List PortRegistryEntry) (reserved : List ReservedPort)
    → reserve_loop bind clock run_id i unavailable es rs names ≡ ok (out, reserved)
    → Distinct (ports_of es)
    → ((p : ℕ) → NotIn p unavailable → NotIn p (ports_of es))
    → (new : List PortRegistryEntry) × (news : List ReservedPort) × (out ≡ es ++ new)
      × (reserved ≡ rs ++ news)
      × Allocated run_id new news names
      × Distinct (ports_of out)
unfolding reserve_loop
reserve_loop_lem bind clock run_id i unavailable es rs [] out reserved h d s =
    let (o, r) = both_eq es out rs reserved h in
    ([], [], o ∙ sym (append-nil es), r ∙ sym (append-nil rs), tt, rw o d)
reserve_loop_lem bind clock run_id i unavailable es rs (n ∷ names) out reserved h d s =
    let ((port, j), e, h1) = >>=-eq-ok (allocate bind max_allocation_attempts i unavailable) _ h in
    let entry : PortRegistryEntry = record {
      run_id = run_id;
      name = n;
      port = port;
      acquired_at_ms = clock j;
    } in
    let held : ReservedPort = record { name = n; port = port; listener = true } in
    let fresh = s port (allocate-NotIn bind max_allocation_attempts i unavailable port j e) in
    let (new, news, o, r, a, d') =
      reserve_loop_lem bind clock run_id j (port ∷ unavailable) (es ++ entry ∷ []) (rs ++ held ∷ [])
        names out reserved h1
        (rw (ports_of-snoc es entry) (Distinct-snoc (ports_of es) port d fresh))
        (λ p m.
          rw (ports_of-snoc es entry)
            (NotIn-append p (ports_of es) (port ∷ []) (s p m.1) (m.0, tt))) in
    (
      entry ∷ new,
      held ∷ news,
      o ∙ append_assoc es (entry ∷ []) new,
      r ∙ append_assoc rs (held ∷ []) news,
      ((refl, refl, refl, refl, refl), a),
      d',
    )

Allocated-run_id :
    (run_id : Text) (new : List PortRegistryEntry) (rs : List ReservedPort) (names : List Text)
    → Allocated run_id new rs names
    → All (λ e. e.run_id ≡ run_id) new
Allocated-run_id run_id [] rs names a = tt
Allocated-run_id run_id (e ∷ es) (r ∷ rs) (n ∷ ns) (h, a) =
    (h.0, Allocated-run_id run_id es rs ns a)
Allocated-run_id run_id (e ∷ es) [] names a = absurd a
Allocated-run_id run_id (e ∷ es) (r ∷ rs) [] a = absurd a

-- If no port was registered twice before and a reservation succeeds, then the registry keeps just
-- the entries of the runs whose supervisor is active, in order, followed by one entry for each
-- requested name, in order, of this run; the listeners are held at the same ports; and no port is
-- registered twice.
pub reserve_update_lem :
    (active : Text → Bool) (bind : Bind) (clock : ℕ → ℕ) (run_id : Text) (names : List Text)
    (registry after : PortRegistry) (reserved : List ReservedPort)
    → Distinct (ports_of registry.entries)
    → reserve_update active bind clock run_id names registry ≡ ok (after, reserved)
    → (new : List PortRegistryEntry) × (after.entries ≡ prune_stale active registry.entries ++ new)
      × Retained (of_active active) registry.entries (prune_stale active registry.entries)
      × Allocated run_id new reserved names
      × Distinct (ports_of after.entries)
unfolding reserve_update
reserve_update_lem active bind clock run_id names registry after reserved d h =
    let live = prune_stale active registry.entries in
    let ((out, rs), e, h1) =
      >>=-eq-ok (reserve_loop bind clock run_id 0 (ports_of live) live [] names) _ h in
    let (new, news, o, r, a, d') =
      reserve_loop_lem bind clock run_id 0 (ports_of live) live [] names out rs e
        (prune_stale-Distinct active registry.entries d) (λ p m. m) in
    let (x, y) = registry_eq registry after out rs reserved h1 in
    (
      new,
      ap (λ (z : PortRegistry). z.entries) x ∙ o,
      prune_stale-Retained active registry.entries,
      subst (λ z. Allocated run_id new z names) (sym (y ∙ r)) a,
      subst (λ (z : PortRegistry). Distinct (ports_of z.entries)) (sym x) d',
    )

-- A reservation that succeeds on a registry without a port that is registered twice, and the release
-- of the run's ports after it: of the registry before, the entries of other runs whose supervisor is
-- active are left, in order and no others, and no port is registered twice.
pub reserve_update-release_entries :
    (active : Text → Bool) (bind : Bind) (clock : ℕ → ℕ) (run_id : Text) (names : List Text)
    (registry after : PortRegistry) (reserved : List ReservedPort)
    → Distinct (ports_of registry.entries)
    → reserve_update active bind clock run_id names registry ≡ ok (after, reserved)
    → (live : List PortRegistryEntry) × Retained (of_active active) registry.entries live
      × Retained (of_another run_id) live (release_entries run_id after.entries)
      × Distinct (ports_of (release_entries run_id after.entries))
reserve_update-release_entries active bind clock run_id names registry after reserved d h =
    let (new, e, kept, a, d') =
      reserve_update_lem active bind clock run_id names registry after reserved d h in
    let live = prune_stale active registry.entries in
    (
      live,
      kept,
      subst (λ es. Retained (of_another run_id) live (release_entries run_id es)) (sym e)
          (release_entries-Retained run_id live new (Allocated-run_id run_id new reserved names a)),
      release_entries-Distinct run_id after.entries d',
    )
