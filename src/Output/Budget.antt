-- ===== src/Output/Budget.antt =====
-- chargeAttemptOutput, chargeArchivedAttemptOutput and attemptOutputExceeded of
-- runtime/output_budget.go. `bytes` is not negative here; a negative charge is refused like one that
-- is too large.
use harness_codex.Prelude.{
  ℕ, ◌+◌, ◌-◌, Bool, true, false, ◌&&◌, ◌||◌, Option, none, some, List, [], ◌∷◌, ◌==◌, ltb, find?,
  update_at, if◌then◌else◌,
}
use harness_codex.Ledger.Types.{Uuid, Attempt, LateObservation}
use harness_codex.Ledger.Db.{Db}

-- MaximumAttemptOutputBytes
abbrev pub maximum : ℕ
maximum = 67108864

-- outputCharge
pub record OutputCharge : Type 0 where
  pub exceeded : Bool
  pub newly_exceeded : Bool

abbrev pub within : OutputCharge
within = record { exceeded = false; newly_exceeded = false }

abbrev pub over : OutputCharge
over = record { exceeded = true; newly_exceeded = false }

abbrev pub newly_over : OutputCharge
newly_over = record { exceeded = true; newly_exceeded = true }

-- SELECT COALESCE(SUM(output_bytes),0) FROM late_observations WHERE …
unfoldable pub archived_bytes : Uuid → List LateObservation → ℕ
archived_bytes id [] = 0
archived_bytes id (o ∷ os) =
    (if o.attempt_id == id && o.has_projection_key then o.output_bytes else 0)
    + archived_bytes id os

-- current > maximum || archived > maximum || current > maximum-archived
unfoldable pub is_exceeded : ℕ → ℕ → Bool
is_exceeded current archived =
    ltb maximum current || ltb maximum archived || ltb (maximum - archived) current

abbrev put_output : ℕ → Attempt → Attempt
put_output n a = record a { output_bytes = n }

-- UPDATE attempts SET output_bytes=? WHERE attempt_id=?
unfoldable pub set_output : Uuid → ℕ → Db → Db
set_output id n db = record db {
  attempts = update_at (λ (a : Attempt). a.attempt_id) id (put_output n) db.attempts;
}

abbrev pub charge_counts : Uuid → ℕ → ℕ → ℕ → Db → OutputCharge × Db
charge_counts id bytes current archived db =
    if is_exceeded current archived
    then (over, db)
    else if ltb (maximum - current - archived) bytes
    then (newly_over, set_output id (maximum + 1) db)
    else (within, set_output id (current + bytes) db)

abbrev pub charge_row : Uuid → ℕ → Option Attempt → Db → Option (OutputCharge × Db)
charge_row id bytes none db = none
charge_row id bytes (some a) db =
    some (charge_counts id bytes a.output_bytes (archived_bytes id db.late_observations) db)

-- chargeAttemptOutput; a charge of no bytes writes the count that is there.
unfoldable pub charge_attempt_output : Uuid → ℕ → Db → Option (OutputCharge × Db)
unfolding is_exceeded set_output archived_bytes
charge_attempt_output id bytes db =
    if ltb maximum bytes
    then none
    else charge_row id bytes (find? (λ (a : Attempt). a.attempt_id) id db.attempts) db

abbrev pub archive_counts : ℕ → ℕ → ℕ → OutputCharge × ℕ
archive_counts bytes active archived =
    if is_exceeded active archived
    then (over, 0)
    else if ltb (maximum - (active + archived)) bytes
    then (newly_over, maximum + 1 - (active + archived))
    else (within, bytes)

abbrev pub archive_row : Uuid → ℕ → Option Attempt → Db → Option (OutputCharge × ℕ)
archive_row id bytes none db = none
archive_row id bytes (some a) db =
    some (archive_counts bytes a.output_bytes (archived_bytes id db.late_observations))

-- chargeArchivedAttemptOutput: the number of bytes that the archive row has to store.
unfoldable pub charge_archived_output : Uuid → ℕ → Db → Option (OutputCharge × ℕ)
unfolding is_exceeded archived_bytes
charge_archived_output id bytes db =
    if ltb maximum bytes
    then none
    else archive_row id bytes (find? (λ (a : Attempt). a.attempt_id) id db.attempts) db
