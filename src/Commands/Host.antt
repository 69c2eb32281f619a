-- ===== src/Commands/Host.antt =====
-- What the host gives a transaction: identifiers, free space, the control reserve and the commit
-- (runtime/command.go, runtime/config.go, runtime/store.go).
use harness_codex.Prelude.{
  ℕ, ◌/◌, Bool, true, ◌&&◌, Option, none, some, List, ◌==◌, ltb, if◌then◌else◌,
}
use harness_codex.Ledger.Types.{Uuid, DurableState}
use harness_codex.Ledger.Tx.{Config}

pub record Identity : Type 0 where
  pub node_id : Uuid
  pub registry_version : ℕ
  pub identity_epoch : ℕ
  pub adapter : Uuid

-- TrustContext
pub record Trust : Type 0 where
  pub transport_node_id : Uuid
  pub expected_identity : Option Identity

pub record SpaceInfo : Type 0 where
  pub free_bytes : ℕ
  pub total_bytes : ℕ

-- What the host answers while one command runs: the identifiers, the two measurements of free space
-- (`none` is an error), whether the control reserve was released, the test faults around the commit,
-- and whether SQLite committed.
pub record Host : Type 0 where
  pub ids : List Uuid
  pub probe : Option SpaceInfo
  pub physical : Option SpaceInfo
  pub reserve_released : Bool
  pub fault_before_commit : Bool
  pub commits : Bool
  pub fault_after_commit : Bool

-- admissionFloor of runtime/store.go
unfoldable pub admission_floor : ℕ → ℕ
admission_floor total = if ltb (total / 10) 1073741824 then 1073741824 else total / 10

unfoldable pub below_floor : Option SpaceInfo → Bool
unfolding admission_floor
below_floor none = true
below_floor (some s) = ltb s.free_bytes (admission_floor s.total_bytes)

abbrev pub same_identity : Config → DurableState → Option Identity → Bool
same_identity c s none = true
same_identity c s (some i) =
    i.node_id == c.node_id
    && i.registry_version == s.registry_version
    && i.identity_epoch == s.epoch
    && i.adapter == c.adapter
