-- ===== src/Leases/Populate/Filled.antt =====
-- src/leases.rs: what a populated state holds. Proofs.
use procherd.Prelude.{ℕ, ◌≡◌, Bool, true, false, some, List, ◌++◌, map, All}
use procherd.Prelude.Texts.{Text}
use procherd.Prelude.Numbers.{to_decimal}
use procherd.Prelude.Order.{map_get, StrictlySorted, is_among}
use procherd.Error.{Zip}
use procherd.Model.Readiness.{ReadinessCondition, port_lease, ReadinessCheck}
use procherd.Model.Run.{PortLease, TempDirectoryLease, RunState}
use procherd.Leases.Registry.{ReservedPort}
use procherd.Leases.Allocation.{LeaseAllocation}
use procherd.Leases.Placeholders.{has_placeholder}
use procherd.Leases.Populate.{find_reserved, loopback_at, port_variable, temp_variable, injected}

-- What `populate_state` makes of a lease of a port: a reservation of the name, with its address.
abbrev pub IsFilled : List ReservedPort → ℕ → PortLease → PortLease → Type 0
IsFilled rs at l m =
    (r : ReservedPort) × (find_reserved l.name rs ≡ some r)
    × (m ≡ record l {
      address = some (loopback_at (to_decimal r.port));
      port = some r.port;
      acquired_at_ms = some at;
    })

abbrev pub is_port_lease : ReadinessCondition → Bool
is_port_lease (port_lease _) = true
is_port_lease _ = false

abbrev IsFilledTemp : List (Text × Text) → ℕ → TempDirectoryLease → TempDirectoryLease → Type 0
IsFilledTemp paths at l m =
    (path : Text) × (map_get l.name paths ≡ some path)
    × (m ≡ record l { path = some path; acquired_at_ms = some at })

-- What a filled state holds.
pub record IsPopulated (a : LeaseAllocation) (s : RunState) (at : ℕ) (paths : List (Text × Text))
    (s' : RunState) : Type 0 where
  pub ports : Zip (IsFilled a.ports at) s.leases.ports s'.leases.ports
  pub temps : Zip (IsFilledTemp paths at) s.leases.temp_directories s'.leases.temp_directories
  pub args : All (λ v. has_placeholder v ≡ false) s'.command.args
  pub resolved : All (λ (c : ReadinessCheck). is_port_lease c.condition ≡ false) s'.readiness.checks
  pub ordered : StrictlySorted s'.command.environment.injected_names
  pub named :
      (name : Text)
      → is_among name s'.command.environment.injected_names
        ≡ is_among name (
            s.command.environment.injected_names
            ++ injected
                (map port_variable s'.leases.ports ++ map temp_variable s'.leases.temp_directories))
