-- ===== src/Holds/Scopes.antt =====
-- The scope of a hold, the rows that it covers and its revisions (runtime/hold.go).
use harness_codex.Prelude.{
  ◌≡◌, refl, arith, ℕ, Bool, true, false, ◌&&◌, Option, none, some, List, [], ◌∷◌, ◌==◌,
  if◌then◌else◌, first,
}
use harness_codex.Ledger.Types.{Uuid, Digest, Scope, ReleaseAction, ScopeRevision}
use harness_codex.Ledger.Db.{Db}

-- harnessbarrier.InstallRequest, with the digest of its canonical bytes
pub record InstallRequest : Type 0 where
  pub operation_id : Uuid
  pub node_id : Uuid
  pub expected_epoch : ℕ
  pub binding_generation : ℕ
  pub scope : Scope
  pub expected_scope_revision : ℕ
  pub digest : Digest

-- harnessbarrier.ReleaseRequest, with the digest of its canonical bytes
pub record ReleaseRequest : Type 0 where
  pub operation_id : Uuid
  pub node_id : Uuid
  pub expected_epoch : ℕ
  pub binding_generation : ℕ
  pub scope : Scope
  pub hold_version : ℕ
  pub expected_scope_revision : ℕ
  pub action : ReleaseAction
  pub digest : Digest

-- `scope.Kind='node' OR dialog_id=scope.DialogID`
unfoldable pub in_scope : Scope → Uuid → Bool
in_scope Scope.node d = true
in_scope (Scope.dialog e) d = d == e

-- `a == b`, and the equality of their scope keys
unfoldable pub same_scope : Scope → Scope → Bool
same_scope Scope.node Scope.node = true
same_scope Scope.node (Scope.dialog e) = false
same_scope (Scope.dialog d) Scope.node = false
same_scope (Scope.dialog d) (Scope.dialog e) = d == e

-- `h.scope='node' OR scope.Kind='node' OR (h.scope='dialog' AND h.dialog_id=scope.DialogID)`
unfoldable pub overlaps : Scope → Scope → Bool
overlaps Scope.node b = true
overlaps (Scope.dialog d) Scope.node = true
overlaps (Scope.dialog d) (Scope.dialog e) = d == e

-- `SELECT revision FROM hold_scope_revisions WHERE scope_key=?`
abbrev revision_of : Option ScopeRevision → Option ℕ
revision_of none = none
revision_of (some r) = some r.revision

unfoldable pub scope_revision : Db → Scope → Option ℕ
unfolding same_scope
scope_revision db s =
    revision_of (first (λ (r : ScopeRevision). same_scope r.scope s) db.hold_scope_revisions)

abbrev pub or_zero : Option ℕ → ℕ
or_zero none = 0
or_zero (some n) = n

-- `INSERT … ON CONFLICT(scope_key) DO UPDATE SET revision=excluded.revision`
unfoldable pub put_revision : Scope → ℕ → List ScopeRevision → List ScopeRevision
unfolding same_scope
put_revision s n [] = (record { scope = s; revision = n }) ∷ []
put_revision s n (r ∷ rs) =
    if same_scope r.scope s then (record r { revision = n }) ∷ rs else r ∷ put_revision s n rs

-- `UPDATE … SET revision=? WHERE scope_key=? AND revision=?`
unfoldable pub move_revision : Scope → ℕ → ℕ → List ScopeRevision → List ScopeRevision
unfolding same_scope
move_revision s old new [] = []
move_revision s old new (r ∷ rs) =
    (if same_scope r.scope s && r.revision == old then record r { revision = new } else r)
    ∷ move_revision s old new rs

pub overlaps_sym : (a b : Scope) → overlaps a b ≡ overlaps b a
unfolding overlaps
overlaps_sym Scope.node Scope.node = refl
overlaps_sym Scope.node (Scope.dialog e) = refl
overlaps_sym (Scope.dialog d) Scope.node = refl
overlaps_sym (Scope.dialog d) (Scope.dialog e) = ground arith
