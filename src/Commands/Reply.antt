-- ===== src/Commands/Reply.antt =====
-- The results of the node's entry points and the commit that ends them (runtime/command.go,
-- runtime/hold.go).
use harness_codex.Prelude.{ℕ, Bool, true, false, not, if◌then◌else◌}
use harness_codex.Ledger.Types.{HoldReceipt, ReleaseReceipt}
use harness_codex.Ledger.Wire.{Receipt, RejectionReceipt}
use harness_codex.Ledger.Db.{Db}
use harness_codex.Ledger.Tx.{Code, CurrentState, Failure, outdated, stale_state, refused, internal}
use harness_codex.Commands.Host.{Host}

pub data ReplyBody : Type 0 where
  receipt : Receipt → ReplyBody
  rejection : RejectionReceipt → ReplyBody
  error : Code → ReplyBody
  hold : HoldReceipt → ReplyBody
  release : ReleaseReceipt → ReplyBody
  conflict : ℕ → CurrentState → ReplyBody
  state_conflict : CurrentState → ReplyBody

-- Result
pub record Reply : Type 0 where
  pub http_status : ℕ
  pub body : ReplyBody
  pub committed : Bool

abbrev pub refusal : ℕ → Code → Reply
refusal status code = record { http_status = status; body = error code; committed = false }

-- commandError
abbrev pub command_error : Failure → Reply
command_error (outdated v s) = record { http_status = 409; body = conflict v s; committed = false }
command_error (stale_state s) = record {
  http_status = 409;
  body = state_conflict s;
  committed = false;
}
command_error (refused status code) = refusal status code
command_error internal = refusal 503 Code.not_durable

-- The commit, the faults around it, and the reply that its outcome gives
abbrev pub conclude : Host → Reply → Db → Db → Reply × Db
conclude h reply before after =
    if h.fault_before_commit
    then (refusal 503 Code.not_durable, before)
    else if not h.commits
    then (refusal 503 Code.not_durable, before)
    else if h.fault_after_commit
    then (record { http_status = 503; body = error Code.node_unavailable; committed = true }, after)
    else (reply, after)
