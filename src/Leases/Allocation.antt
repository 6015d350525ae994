-- ===== src/Leases/Allocation.antt =====
-- src/leases.rs: `LeaseAllocation`, and what it writes into the run state. Clock readings and the
-- results of the registry updates are arguments.
use procherd.Prelude.{
  ℕ, ◌-◌, ◌≡◌, Bool, true, false, ◌&&◌, none, some, List, [], ◌∷◌, All, arith, map, is_some,
  is_none, if◌then◌else◌,
}
use procherd.Prelude.Texts.{Text, text_eq}
use procherd.Error.{Result, ok, ◌>>=◌, ◌>>◌}
use procherd.Model.Run.{PortLease, TempDirectoryLease, LeaseState, RunState}
use procherd.Leases.Registry.{ReservedPort}

pub record LeaseAllocation : Type 0 where
  pub run_id : Text
  pub ports : List ReservedPort
  pub environment : List (Text × Text)
  pub registry_released : Bool

abbrev pub with_leases : LeaseState → RunState → RunState
with_leases l s = record s { leases = l }

-- `find` and the assignment: the first lease of the name is marked.
pub mark_handoff : ℕ → Text → List PortLease → List PortLease
mark_handoff at name [] = []
mark_handoff at name (l ∷ ls) =
    let rest = mark_handoff at name ls in
    if text_eq l.name name then record l { handoff_at_ms = some at } ∷ ls else l ∷ rest

mark_all : ℕ → List ReservedPort → List PortLease → List PortLease
mark_all at [] ls = ls
mark_all at (r ∷ rs) ls = mark_all at rs (mark_handoff at r.name ls)

-- The listeners are closed, and the leases carry the time.
unfoldable pub handoff : ℕ → LeaseAllocation → RunState → LeaseAllocation × RunState
unfolding mark_all mark_handoff
handoff at a s = (
  record a { ports = map (λ (r : ReservedPort). record r { listener = false }) a.ports },
  with_leases (record s.leases { ports = mark_all at a.ports s.leases.ports }) s,
)

abbrev spawned : ℕ → PortLease → PortLease
spawned at l = elim l.handoff_at_ms [
  | none ↦ l
  | some handoff ↦ record l { handoff_gap_ms = some (at - handoff) }
]

unfoldable pub record_spawn : ℕ → RunState → RunState
record_spawn spawned_at s =
    with_leases (record s.leases { ports = map (spawned spawned_at) s.leases.ports }) s

abbrev released_port : ℕ → PortLease → PortLease
released_port at l = record l { released_at_ms = some at }

abbrev released_temp : ℕ → TempDirectoryLease → TempDirectoryLease
released_temp at l = record l { released_at_ms = some at }

unfoldable pub release_leases : ℕ → LeaseState → LeaseState
release_leases at l = record {
  ports = map (released_port at) l.ports;
  temp_directories = map (released_temp at) l.temp_directories;
}

-- `update` is the result of the registry update, which is made once.
unfoldable pub release_registry : Result (Unit {0}) → LeaseAllocation → Result LeaseAllocation
release_registry update a =
    if a.registry_released then ok a else (do update; ok (record a { registry_released = true }))

unfoldable pub release :
    Result (Unit {0}) → ℕ → LeaseAllocation → RunState → Result (LeaseAllocation × RunState)
unfolding release_registry release_leases
release update at a s = do
  a' ← release_registry update a
  ok (a', with_leases (release_leases at s.leases) s)

-- `mark_supervisor_failed` (src/supervisor.rs) releases only what is held.
abbrev close_port : ℕ → PortLease → PortLease
close_port at l =
    if is_some l.acquired_at_ms && is_none l.released_at_ms then released_port at l else l

abbrev close_temp : ℕ → TempDirectoryLease → TempDirectoryLease
close_temp at l =
    if is_some l.acquired_at_ms && is_none l.released_at_ms then released_temp at l else l

unfoldable pub close_leases : ℕ → LeaseState → LeaseState
close_leases at l = record {
  ports = map (close_port at) l.ports;
  temp_directories = map (close_temp at) l.temp_directories;
}

-- No lease is held: one that was acquired is released.
abbrev pub NothingHeld : LeaseState → Type 0
NothingHeld l =
    All (λ (p : PortLease). (is_some p.acquired_at_ms && is_none p.released_at_ms) ≡ false) l.ports
    × All
        (λ (t : TempDirectoryLease). (is_some t.acquired_at_ms && is_none t.released_at_ms) ≡ false)
        l.temp_directories

module _ (at : ℕ) where
  released_ports :
      (ls : List PortLease)
      → All
          (λ (p : PortLease). (is_some p.acquired_at_ms && is_none p.released_at_ms) ≡ false)
          (map (released_port at) ls)
  released_ports [] = tt
  released_ports (l ∷ ls) = (ground arith, released_ports ls)

  released_temps :
      (ls : List TempDirectoryLease)
      → All
          (λ (p : TempDirectoryLease).
            (is_some p.acquired_at_ms && is_none p.released_at_ms) ≡ false)
          (map (released_temp at) ls)
  released_temps [] = tt
  released_temps (l ∷ ls) = (ground arith, released_temps ls)

  closed_ports :
      (ls : List PortLease)
      → All
          (λ (p : PortLease). (is_some p.acquired_at_ms && is_none p.released_at_ms) ≡ false)
          (map (close_port at) ls)
  closed_ports [] = tt
  closed_ports (l ∷ ls) = (ground arith, closed_ports ls)

  closed_temps :
      (ls : List TempDirectoryLease)
      → All
          (λ (p : TempDirectoryLease).
            (is_some p.acquired_at_ms && is_none p.released_at_ms) ≡ false)
          (map (close_temp at) ls)
  closed_temps [] = tt
  closed_temps (l ∷ ls) = (ground arith, closed_temps ls)

  -- Both ways of ending a run leave no lease held.
  pub release_leases-NothingHeld : (l : LeaseState) → NothingHeld (release_leases at l)
  unfolding release_leases
  release_leases-NothingHeld l = (released_ports l.ports, released_temps l.temp_directories)

  pub close_leases-NothingHeld : (l : LeaseState) → NothingHeld (close_leases at l)
  unfolding close_leases
  close_leases-NothingHeld l = (closed_ports l.ports, closed_temps l.temp_directories)
