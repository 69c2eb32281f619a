-- ===== src/Holds/Checks.antt =====
-- The numbers that the barrier's wire records may carry (internal/harnessbarrier/types.go). The
-- other checks of Validate are on the shape of strings, which the model keeps as identifiers.
use harness_codex.Prelude.{ℕ, Bool, ◌&&◌, leb, ltb}
use harness_codex.Ledger.Types.{HoldReceipt, ReleaseReceipt}
use harness_codex.Holds.Scopes.{InstallRequest, ReleaseRequest}

abbrev pub maximum_safe_integer : ℕ
maximum_safe_integer = 9007199254740991

unfoldable pub valid_safe_integer : ℕ → Bool
valid_safe_integer n = leb n maximum_safe_integer

unfoldable pub valid_positive_integer : ℕ → Bool
valid_positive_integer n = ltb 0 n && leb n maximum_safe_integer

unfoldable pub valid_install : InstallRequest → Bool
unfolding valid_safe_integer valid_positive_integer
valid_install r =
    valid_positive_integer r.expected_epoch
    && valid_positive_integer r.binding_generation
    && valid_safe_integer r.expected_scope_revision

unfoldable pub valid_hold_receipt : HoldReceipt → Bool
unfolding valid_positive_integer
valid_hold_receipt r =
    valid_positive_integer r.epoch
    && valid_positive_integer r.binding_generation
    && valid_positive_integer r.hold_version
    && valid_positive_integer r.scope_revision

unfoldable pub valid_release : ReleaseRequest → Bool
unfolding valid_positive_integer
valid_release r =
    valid_positive_integer r.expected_epoch
    && valid_positive_integer r.binding_generation
    && valid_positive_integer r.hold_version
    && valid_positive_integer r.expected_scope_revision

unfoldable pub valid_release_receipt : ReleaseReceipt → Bool
unfolding valid_positive_integer
valid_release_receipt r =
    valid_positive_integer r.epoch
    && valid_positive_integer r.binding_generation
    && valid_positive_integer r.hold_version
    && valid_positive_integer r.scope_revision
