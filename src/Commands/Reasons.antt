-- ===== src/Commands/Reasons.antt =====
-- The blocked reasons of the node (addReason, removeReason and blockingReason of
-- runtime/command_handlers.go, slicesContains of runtime/dispatch.go).
use harness_codex.Prelude.{
  Bool, true, false, Option, none, some, List, [], ◌∷◌, ◌++◌, if◌then◌else◌, any,
}
use harness_codex.Ledger.Types.{
  Reason, operator_pause, engine_unavailable, same_reason, EngineReadiness, DurableState,
}

unfoldable pub contains_reason : List Reason → Reason → Bool
contains_reason reasons r = any (same_reason r) reasons

unfoldable pub add_reason : List Reason → Reason → List Reason
unfolding contains_reason
add_reason reasons r = if contains_reason reasons r then reasons else reasons ++ r ∷ []

unfoldable pub remove_reason : List Reason → Reason → List Reason
remove_reason [] r = []
remove_reason (x ∷ xs) r = if same_reason r x then remove_reason xs r else x ∷ remove_reason xs r

abbrev is_ready : EngineReadiness → Bool
is_ready EngineReadiness.ready = true
is_ready _ = false

abbrev first_reason : List Reason → EngineReadiness → Option Reason
first_reason (x ∷ xs) readiness = some x
first_reason [] readiness = if is_ready readiness then none else some engine_unavailable

-- blockingReason
unfoldable pub blocking_reason : DurableState → Option Reason
blocking_reason s =
    if s.queue_paused
    then some operator_pause
    else first_reason s.blocked_reasons s.engine_readiness
