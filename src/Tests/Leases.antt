-- ===== src/Tests/Leases.antt =====
-- src/leases.rs, src/store.rs and src/hex.rs at concrete values.
use procherd.Prelude.{ℕ, ◌≡◌, ◌≢◌, refl, true, List, [], ◌∷◌, Distinct, arith, inr, ◌++◌, ◌+◌, ◌↔◌}
use procherd.Prelude.Texts.{Text, codes}
use procherd.Error.{ok}
use procherd.Hex.{encode_lower, decode, decode-encode_lower}
use procherd.Model.Run.{LeaseRequests}
use procherd.Leases.Names.{valid_name, validate_requests, environment_name}
use procherd.Leases.Names.Distinct.{AreValid, validate_requests_iff}
use procherd.Leases.Names.Environment.{has_dash, underscored, environment_name_shared}
use procherd.Leases.Registry.{
  PortRegistryEntry, PortRegistry, registry_schema, ports_of, prune_stale, release_entries,
  reserve_update,
}
use procherd.Leases.Registry.Ports.{
  Allocated, Retained, of_active, of_another, reserve_update_lem, reserve_update-release_entries,
}

decode-encode_lower_example : decode (encode_lower (0x0f ∷ 0xa0 ∷ [])) ≡ 0x0f ∷ 0xa0 ∷ []
decode-encode_lower_example = decode-encode_lower (0x0f ∷ 0xa0 ∷ []) (ground arith)

validate_requests_iff_example :
    ((r : LeaseRequests) × (validate_requests (codes "web" ∷ []) (codes "web" ∷ []) ≡ ok r)
      × (r ≡ record { port_names = codes "web" ∷ []; temp_directory_names = codes "web" ∷ [] }))
    ↔ AreValid (codes "web" ∷ []) (codes "web" ∷ [])
validate_requests_iff_example = validate_requests_iff (codes "web" ∷ []) (codes "web" ∷ [])

environment_name_shared_example :
    (codes "a-b" ≢ underscored (codes "a-b"))
    × (validate_requests (codes "a-b" ∷ underscored (codes "a-b") ∷ []) []
        ≡ ok (record {
          port_names = codes "a-b" ∷ underscored (codes "a-b") ∷ [];
          temp_directory_names = [];
        }))
    × (environment_name (codes "PORT") (underscored (codes "a-b"))
        ≡ environment_name (codes "PORT") (codes "a-b"))
unfolding valid_name has_dash
environment_name_shared_example = environment_name_shared (codes "PORT") (codes "a-b") refl refl

abbrev entry_of : Text → ℕ → PortRegistryEntry
entry_of run_id port = record {
  run_id = run_id;
  name = codes "web";
  port = port;
  acquired_at_ms = 1;
}

abbrev two_entries : List PortRegistryEntry
two_entries = entry_of (codes "one") 8000 ∷ entry_of (codes "two") 8001 ∷ []

abbrev registry : PortRegistry
registry = record { schema_version = registry_schema; entries = entry_of (codes "two") 8001 ∷ [] }

abbrev reserved_registry : PortRegistry
reserved_registry = record registry {
  entries =
      entry_of (codes "two") 8001
      ∷ record { run_id = codes "one"; name = codes "web"; port = 8002; acquired_at_ms = 2 }
      ∷ [];
}

-- The first port that is bound is registered already, so that a second attempt is made.
reserve_update_lem_example :
    (new : List PortRegistryEntry) × ((entry_of (codes "two") 8001
        ∷ record { run_id = codes "one"; name = codes "web"; port = 8002; acquired_at_ms = 2 }
        ∷ [])
      ≡ prune_stale (λ _. true) registry.entries ++ new)
    × Retained (of_active (λ _. true)) registry.entries (prune_stale (λ _. true) registry.entries)
    × Allocated
        (codes "one")
        new
        (record { name = codes "web"; port = 8002; listener = true } ∷ [])
        (codes "web" ∷ [])
    × Distinct {A = ℕ} (8001 ∷ 8002 ∷ [])
unfolding reserve_update
reserve_update_lem_example =
    reserve_update_lem (λ _. true) (λ i. inr (8001 + i)) (λ i. i) (codes "one") (codes "web" ∷ [])
      registry reserved_registry (record { name = codes "web"; port = 8002; listener = true } ∷ [])
      (tt, tt) refl

-- The entry of the run before the reservation is released with the new one.
abbrev earlier : PortRegistry
earlier = record { schema_version = registry_schema; entries = two_entries }

abbrev later : PortRegistry
later = record earlier {
  entries =
      two_entries
      ++ record { run_id = codes "one"; name = codes "web"; port = 8002; acquired_at_ms = 1 } ∷ [];
}

reserve_update-release_entries_example :
    (live : List PortRegistryEntry) × Retained (of_active (λ _. true)) two_entries live
    × Retained (of_another (codes "one")) live (release_entries (codes "one") later.entries)
    × Distinct (ports_of (release_entries (codes "one") later.entries))
unfolding reserve_update
reserve_update-release_entries_example =
    reserve_update-release_entries (λ _. true) (λ i. inr (8002 + i)) (λ i. i) (codes "one")
      (codes "web" ∷ []) earlier later
      (record { name = codes "web"; port = 8002; listener = true } ∷ []) (ground arith) refl
