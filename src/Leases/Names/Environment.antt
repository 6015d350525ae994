-- ===== src/Leases/Names/Environment.antt =====
-- src/leases.rs: two lease names for one environment variable. Proofs.
use mathlib.Core.Bool.{false≢true}
use procherd.Prelude.{
  suc, ◌≡◌, refl, ap, ◌≢◌, Bool, true, [], ◌∷◌, length, any, all, map, arith, ◌==◌, if◌then◌else◌,
}
use procherd.Prelude.Texts.{Text}
use procherd.Error.{ok}
use procherd.Leases.Names.{
  name_byte, starts_lowercase, valid_name, validate_requests, normalized, environment_name,
}
use procherd.Leases.Names.Distinct.{AreValid-validate_requests}

-- The name with each `-` as `_`.
abbrev pub underscored : Text → Text
underscored = map (λ c. if c == b'-' then b'_' else c)

unfoldable pub has_dash : Text → Bool
has_dash = any (λ c. c == b'-')

underscored-normalized : (name : Text) → normalized (underscored name) ≡ normalized name
underscored-normalized [] = refl
underscored-normalized (c ∷ s) = ground (arith, underscored-normalized s)

underscored-length : (name : Text) → length (underscored name) ≡ length name
underscored-length [] = refl
underscored-length (c ∷ s) = ap suc (underscored-length s)

underscored-bytes :
    (name : Text) → all name_byte name ≡ true → all name_byte (underscored name) ≡ true
underscored-bytes [] h = refl
underscored-bytes (c ∷ s) h = ground (arith, underscored-bytes s)

underscored-starts :
    (name : Text) → starts_lowercase name ≡ true → starts_lowercase (underscored name) ≡ true
underscored-starts [] h = h
underscored-starts (c ∷ s) h = ground arith

underscored-valid_name :
    (name : Text) → valid_name name ≡ true → valid_name (underscored name) ≡ true
unfolding valid_name
underscored-valid_name name h =
    rw underscored-length (ground (arith, underscored-bytes name, underscored-starts name))

underscored-ne : (name : Text) → has_dash name ≡ true → name ≢ underscored name
unfolding has_dash
underscored-ne [] h e = false≢true h
underscored-ne (c ∷ s) h e = ground (arith, underscored-ne s)

-- For every valid name with a `-` there is another valid name, requested together with it and
-- accepted, whose environment variable is the same: the child receives one of the two ports only.
pub environment_name_shared :
    (kind name : Text)
    → valid_name name ≡ true
    → has_dash name ≡ true
    → (name ≢ underscored name)
      × (validate_requests (name ∷ underscored name ∷ []) []
          ≡ ok (record { port_names = name ∷ underscored name ∷ []; temp_directory_names = [] }))
      × (environment_name kind (underscored name) ≡ environment_name kind name)
unfolding environment_name
environment_name_shared kind name v d =
    let ne = underscored-ne name d in
    (
      ne,
      AreValid-validate_requests (name ∷ underscored name ∷ []) [] (record {
        few_ports = omega arith;
        few_temps = omega arith;
        valid_ports = (v, (underscored-valid_name name v, tt));
        valid_temps = tt;
        distinct_ports = ((ne, tt), (tt, tt));
        distinct_temps = tt;
      }),
      rw underscored-normalized,
    )
