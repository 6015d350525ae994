-- ===== src/Leases/Registry.antt =====
-- src/leases.rs: the registry of leased ports, under its file lock. Whether a run's supervisor
-- holds its lock, what the system binds, and the clock are arguments. The lock makes each
-- `update_registry` one step.
pub mod Ports
use procherd.Prelude.{
  ℕ, zero, suc, ◌+◌, ◌≡◌, Bool, true, false, not, Option, none, some, List, [], ◌∷◌, ◌++◌, any,
  ◌==◌, ◌⊎◌, inl, inr, if◌then◌else◌, map,
}
use procherd.Prelude.Texts.{Text, codes, text, format, text_eq}
use procherd.Error.{
  AppError, Result, ok, err, ◌>>=◌, ◌>>◌, refuse_if, integrity_error, operational, from_io,
  port_lease,
}
use procherd.Leases.Names.{valid_name}
use procherd.Store.RunId.{Ulid, canonical_run_id}
use procherd.Store.Files.{Node, absent, read_json}

abbrev pub registry_schema : Text
registry_schema = codes "procherd.port-leases.v1"

abbrev pub max_allocation_attempts : ℕ
max_allocation_attempts = 128

pub record PortRegistryEntry : Type 0 where
  pub run_id : Text
  pub name : Text
  pub port : ℕ
  pub acquired_at_ms : ℕ

pub record PortRegistry : Type 0 where
  pub schema_version : Text
  pub entries : List PortRegistryEntry

-- The listener is open until the handoff.
pub record ReservedPort : Type 0 where
  pub name : Text
  pub port : ℕ
  pub listener : Bool

abbrev pub ports_of : List PortRegistryEntry → List ℕ
ports_of = map (λ e. e.port)

abbrev written_or_failed {ℓ} :
    {A : Type ℓ} → Option Text → PortRegistry × A → Result (PortRegistry × A)
written_or_failed none r = ok r
written_or_failed (some e) r = err (from_io e)

abbrev invalid_id : PortRegistryEntry → Result Text → Result (Unit {0})
invalid_id e (err _) = err (
    integrity_error
      (format "port lease registry contains invalid run ID {:?}" (text e.run_id ∷ [])))
invalid_id e (ok _) = ok tt

module _ (u : Ulid) where
  pub validate_entries : List PortRegistryEntry → Result (Unit {0})
  validate_entries [] = ok tt
  validate_entries (e ∷ es) = do
    invalid_id e (canonical_run_id u e.run_id)
    refuse_if (not (valid_name e.name)) (
        integrity_error
          (format "port lease registry contains invalid lease name {:?}" (text e.name ∷ [])))
    validate_entries es

  -- The registry that `update_registry` passes to its closure.
  pub opened_registry : Text → Node PortRegistry → Result PortRegistry
  opened_registry path (absent e) = ok (record { schema_version = registry_schema; entries = [] })
  opened_registry path node = read_json path node

  -- `update` returns the new registry with a result, and `write` is the error text of the atomic
  -- write, if it fails. The new registry is the one that is written.
  pub update_registry {ℓ} :
      {A : Type ℓ}
      → Text
      → Option Text
      → (PortRegistry → Result (PortRegistry × A))
      → Node PortRegistry
      → Result (PortRegistry × A)
  unfolding validate_entries opened_registry
  update_registry path write update node = do
    registry ← opened_registry path node
    refuse_if (not (text_eq registry.schema_version registry_schema)) (
        integrity_error
          (format "unsupported port lease registry schema {}" (text registry.schema_version ∷ [])))
    validate_entries registry.entries
    result ← update registry
    written_or_failed write result

-- The entries whose run has an active supervisor.
pub prune_stale : (Text → Bool) → List PortRegistryEntry → List PortRegistryEntry
prune_stale active [] = []
prune_stale active (e ∷ es) =
    let rest = prune_stale active es in if active e.run_id then e ∷ rest else rest

-- `registry.entries.retain(|entry| entry.run_id != run_id)`
unfoldable pub release_entries : Text → List PortRegistryEntry → List PortRegistryEntry
release_entries run_id [] = []
release_entries run_id (e ∷ es) =
    let rest = release_entries run_id es in if text_eq e.run_id run_id then rest else e ∷ rest

-- The port of the i-th call of `TcpListener::bind`, or its error text.
abbrev pub Bind : Type 0
Bind = ℕ → Text ⊎ ℕ

abbrev no_port : AppError
no_port =
    operational port_lease
      (format "could not find a free port outside the ProcHerd lease registry" [])

-- The attempts for one name, from the i-th bind on: the port, and the number of binds made.
pub allocate : Bind → ℕ → ℕ → List ℕ → Result (ℕ × ℕ)
allocate bind zero i unavailable = err no_port
allocate bind (suc attempts) i unavailable =
    let retry = allocate bind attempts (i + 1) unavailable in
    elim (bind i) [
      | inl e ↦ err (from_io e)
      | inr port ↦ if any (λ p. port == p) unavailable then retry else ok (port, i + 1)
    ]

-- The loop over the names. `unavailable` is the set of ports, `entries` the registry's list.
pub reserve_loop :
    Bind
    → (ℕ → ℕ)
    → Text
    → ℕ
    → List ℕ
    → List PortRegistryEntry
    → List ReservedPort
    → List Text
    → Result (List PortRegistryEntry × List ReservedPort)
unfolding allocate
reserve_loop bind clock run_id i unavailable entries reserved [] = ok (entries, reserved)
reserve_loop bind clock run_id i unavailable entries reserved (name ∷ names) = do
  (port, j) ← allocate bind max_allocation_attempts i unavailable
  reserve_loop bind clock run_id j (port ∷ unavailable)
      (entries
        ++ record { run_id = run_id; name = name; port = port; acquired_at_ms = clock j } ∷ [])
      (reserved ++ record { name = name; port = port; listener = true } ∷ []) names

-- The closure of `reserve_ports`.
unfoldable pub reserve_update :
    (Text → Bool)
    → Bind
    → (ℕ → ℕ)
    → Text
    → List Text
    → PortRegistry
    → Result (PortRegistry × List ReservedPort)
unfolding prune_stale reserve_loop
reserve_update active bind clock run_id names registry = do
  let live = prune_stale active registry.entries
  (entries, reserved) ← reserve_loop bind clock run_id 0 (ports_of live) live [] names
  ok (record registry { entries = entries }, reserved)

-- The registry that was written, if any, and the reserved ports. Nothing is done for no names.
reserve_ports :
    Ulid
    → Text
    → Option Text
    → (Text → Bool)
    → Bind
    → (ℕ → ℕ)
    → Text
    → List Text
    → Node PortRegistry
    → Result (Option PortRegistry × List ReservedPort)
unfolding update_registry reserve_update
reserve_ports u path write active bind clock run_id [] node = ok (none, [])
reserve_ports u path write active bind clock run_id (name ∷ names) node = do
  (registry, reserved) ←
      update_registry u path write (reserve_update active bind clock run_id (name ∷ names)) node
  ok (some registry, reserved)
