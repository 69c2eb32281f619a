-- ===== src/Attempts/Claims.antt =====
-- What claimAction of runtime/actions.go does to the control actions.
use harness_codex.Prelude.{
  ℕ, ◌+◌, ◌≡◌, refl, Bool, true, Option, none, some, List, [], ◌∷◌, find?, first, count_if,
  find?-update_at, count_if-update_at, ap, ◌∙◌, arith, if◌then◌else◌, Bool-cases, inl, inr,
}
use harness_codex.Ledger.Types.{ActionStatus, ControlAction}
use harness_codex.Ledger.Db.{Db}
use harness_codex.Attempts.Actions.{
  Lane, is_pending_action, is_claimable, set_status, set_action_if, claimed, claim_action,
}

first-passes : {A : Type 0} (p : A → Bool) (xs : List A) (x : A) → first p xs ≡ some x → p x ≡ true
unfolding first
first-passes p [] x e = ground arith
first-passes p (y ∷ xs) x e = elim (Bool-cases (p y)) [
  | inl q ↦ ground arith
  | inr q ↦ first-passes p xs x (ground arith)
]

-- The action was free for the lane, is now in flight, and is the one that is no longer pending.
pub record Claimed (lane : Lane) (db after : Db) (c : ControlAction) : Type 0 where
  pub claimable : is_claimable db lane c ≡ true
  pub inflight :
      find? (λ (x : ControlAction). x.command_id) c.command_id after.control_actions
      ≡ some (set_status ActionStatus.inflight c)
  pub one_less :
      count_if is_pending_action after.control_actions + 1
      ≡ count_if is_pending_action db.control_actions

claimable-pending :
    (db : Db) (lane : Lane) (c : ControlAction)
    → is_claimable db lane c ≡ true
    → is_pending_action c ≡ true
unfolding is_claimable
claimable-pending db lane c e = ground arith

abbrev if_pending : ControlAction → ControlAction
if_pending c = if is_pending_action c then set_status ActionStatus.inflight c else c

if_pending-pending :
    (c : ControlAction)
    → is_pending_action c ≡ true
    → if_pending c ≡ set_status ActionStatus.inflight c
if_pending-pending c e = rw e refl

one_less :
    (c : ControlAction) (n k : ℕ)
    → is_pending_action c ≡ true
    → n + (if is_pending_action c then 1 else 0)
      ≡ k + (if is_pending_action (if_pending c) then 1 else 0)
    → n + 1 ≡ k
unfolding is_pending_action
one_less c n k p e = ground arith

set-Claimed :
    (lane : Lane) (db : Db) (c : ControlAction)
    → is_claimable db lane c ≡ true
    → find? (λ (x : ControlAction). x.command_id) c.command_id db.control_actions ≡ some c
    → Claimed lane db (set_action_if is_pending_action ActionStatus.inflight c.command_id db) c
unfolding set_action_if
set-Claimed lane db c k f =
    let p = claimable-pending db lane c k in
    let m = if_pending-pending c p in
    let id : ControlAction → ℕ = λ x. x.command_id in
    record {
      claimable = k;
      inflight =
          find?-update_at id c.command_id if_pending db.control_actions c f (rw m refl) ∙ ap some m;
      one_less =
          one_less c _ _ p (
            count_if-update_at is_pending_action id c.command_id if_pending db.control_actions c f);
    }

claimed-Claimed :
    (lane : Lane) (db after : Db) (o : Option ControlAction) (c : ControlAction)
    → first (is_claimable db lane) db.control_actions ≡ o
    → claimed db o ≡ (some c, after)
    → find? (λ (x : ControlAction). x.command_id) c.command_id db.control_actions ≡ some c
    → Claimed lane db after c
claimed-Claimed lane db after none c e q f = absurd (ground arith)
claimed-Claimed lane db after (some d) c e q f =
    let same : d ≡ c = cc in
    let end : set_action_if is_pending_action ActionStatus.inflight d.command_id db ≡ after = cc in
    rw⁻¹ end (
      rw same (
        set-Claimed lane db c
          (rw⁻¹ same (first-passes (is_claimable db lane) db.control_actions d e)) f))

-- When claimAction gives an action to a lane, and the action is the row of its identifier, then it was
-- pending and free for that lane (for a dispatch: no active hold covers its attempt), its row is now
-- in flight, and exactly one action fewer is pending.
pub claim_action-Claimed :
    (lane : Lane) (db after : Db) (c : ControlAction)
    → claim_action lane db ≡ (some c, after)
    → find? (λ (x : ControlAction). x.command_id) c.command_id db.control_actions ≡ some c
    → Claimed lane db after c
unfolding claim_action
claim_action-Claimed lane db after c q f = claimed-Claimed lane db after _ c refl q f
