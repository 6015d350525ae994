-- ===== src/Leases/Names/Distinct.antt =====
-- src/leases.rs: which lease requests are accepted. Proofs.
use procherd.Prelude.{
  ℕ, ◌≤◌, ◌≡◌, refl, sym, ◌↔◌, inl, inr, true, false, ◌||◌, List, [], ◌∷◌, length, any, All, NotIn,
  Distinct, All-map_of, arith, ltb, Bool-cases,
}
use procherd.Prelude.Texts.{Text, text_eq, text_eq→eq, text_eq_refl}
use procherd.Error.{Result, ok, refuse_if, refuse_if-ok, >>=-eq-ok}
use procherd.Model.Run.{LeaseRequests}
use procherd.Leases.Names.{valid_name, check_names, validate_names, validate_requests}

not_among : (x : Text) (ys : List Text) → any (text_eq x) ys ≡ false → NotIn x ys
not_among x [] h = tt
not_among x (y ∷ ys) h = elim (Bool-cases (text_eq x y)) [
  | inl e ↦ absurd (cc (rw e at h))
  | inr e ↦ ((λ p. cc (text_eq_refl x)), not_among x ys (rw e at h))
]

check_names-valid :
    (unique names : List Text)
    → check_names unique names ≡ ok tt
    → All (λ n. valid_name n ≡ true) names × Distinct names × All (λ n. NotIn n unique) names
unfolding check_names
check_names-valid unique [] h = (tt, tt, tt)
check_names-valid unique (name ∷ names) h = elim (Bool-cases (valid_name name)) [
  | inr e ↦ absurd (cc (rw e at h))
  | inl v ↦ elim (Bool-cases (any (text_eq name) unique)) [
    | inl d ↦ absurd (cc (rw (v, d) at h))
    | inr d ↦
        let (vs, ds, ns) = check_names-valid (name ∷ unique) names (rw (v, d) at h) in
        (
          (v, vs),
          (All-map_of _ _ names (λ n m p. m.0 (sym p)) ns, ds),
          (not_among name unique d, All-map_of _ _ names (λ n m. m.1) ns),
        )
  ]
]

among_none : (x : Text) (ys : List Text) → NotIn x ys → any (text_eq x) ys ≡ false
among_none x [] h = refl
among_none x (y ∷ ys) h = elim (Bool-cases (text_eq x y)) [
  | inl e ↦ absurd (h.0 (text_eq→eq x y e))
  | inr e ↦ rw e (among_none x ys h.1)
]

merged :
    (x : Text) (unique names : List Text)
    → NotIn x names
    → All (λ n. NotIn n unique) names
    → All (λ n. NotIn n (x ∷ unique)) names
merged x unique [] a b = tt
merged x unique (n ∷ names) a b = (((λ p. a.0 (sym p)), b.0), merged x unique names a.1 b.1)

check_names-accepts :
    (unique names : List Text)
    → All (λ n. valid_name n ≡ true) names
    → Distinct names
    → All (λ n. NotIn n unique) names
    → check_names unique names ≡ ok tt
unfolding check_names
check_names-accepts unique [] v d n = refl
check_names-accepts unique (x ∷ names) v d n =
    rw (v.0, among_none x unique n.0)
      (check_names-accepts (x ∷ unique) names v.1 d.1 (merged x unique names d.0 n.1))

nothing_in_nil : (names : List Text) → All (λ n. NotIn {A = Text} n []) names
nothing_in_nil [] = tt
nothing_in_nil (x ∷ xs) = (tt, nothing_in_nil xs)

-- What the requests must be.
pub record AreValid (ports temps : List Text) : Type 0 where
  pub few_ports : length ports ≤ 16
  pub few_temps : length temps ≤ 16
  pub valid_ports : All (λ n. valid_name n ≡ true) ports
  pub valid_temps : All (λ n. valid_name n ≡ true) temps
  pub distinct_ports : Distinct ports
  pub distinct_temps : Distinct temps

not_too_many : (a b : ℕ) → a ≤ 16 → b ≤ 16 → (ltb 16 a || ltb 16 b) ≡ false
not_too_many a b h k = ground arith

few_enough : (a b : ℕ) → (ltb 16 a || ltb 16 b) ≡ false → (a ≤ 16) × (b ≤ 16)
few_enough a b h = ground arith

unit_eq : (u : Unit {0}) (m : Result (Unit {0})) → m ≡ ok u → m ≡ ok tt
unit_eq tt m h = h

validate_requests-AreValid :
    (ports temps : List Text) (r : LeaseRequests)
    → validate_requests ports temps ≡ ok r
    → AreValid ports temps
unfolding validate_requests validate_names
validate_requests-AreValid ports temps r h =
    let (u, e, h1) = >>=-eq-ok (refuse_if _ _) _ h in
    let (v, p, h2) = >>=-eq-ok (check_names [] ports) _ h1 in
    let (w, t, h3) = >>=-eq-ok (check_names [] temps) _ h2 in
    let few = few_enough (length ports) (length temps) (refuse_if-ok _ _ e) in
    let (vp, dp, _) = check_names-valid [] ports (unit_eq v _ p) in
    let (vt, dt, _) = check_names-valid [] temps (unit_eq w _ t) in
    record {
      few_ports = few.0;
      few_temps = few.1;
      valid_ports = vp;
      valid_temps = vt;
      distinct_ports = dp;
      distinct_temps = dt;
    }

pub AreValid-validate_requests :
    (ports temps : List Text)
    → AreValid ports temps
    → validate_requests ports temps
      ≡ ok (record { port_names = ports; temp_directory_names = temps })
unfolding validate_requests validate_names
AreValid-validate_requests ports temps v =
    let few : (ltb 16 (length ports) || ltb 16 (length temps)) ≡ false =
      not_too_many (length ports) (length temps) v.few_ports v.few_temps in
    rw
      (
        few,
        check_names-accepts [] ports v.valid_ports v.distinct_ports (nothing_in_nil ports),
        check_names-accepts [] temps v.valid_temps v.distinct_temps (nothing_in_nil temps),
      )
      refl

-- The requests are accepted, and unchanged, exactly when there are at most 16 of each kind, every
-- name is valid, and the names of each kind are distinct.
pub validate_requests_iff :
    (ports temps : List Text)
    → ((r : LeaseRequests) × (validate_requests ports temps ≡ ok r)
        × (r ≡ record { port_names = ports; temp_directory_names = temps }))
      ↔ AreValid ports temps
validate_requests_iff ports temps = (
  λ (r, e, _). validate_requests-AreValid ports temps r e,
  λ v. (_, AreValid-validate_requests ports temps v, refl),
)
