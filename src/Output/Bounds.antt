-- ===== src/Output/Bounds.antt =====
-- The budget bounds what an attempt may output, and passing it is remembered.
use harness_codex.Prelude.{
  ℕ, ◌+◌, ◌≤◌, ◌⊎◌, ◌≡◌, refl, true, some, find?, find?-update_at, find?-key, arith, Bool-cases,
  inl, inr,
}
use harness_codex.Ledger.Types.{Uuid, Attempt}
use harness_codex.Ledger.Db.{Db}
use harness_codex.Output.Budget.{
  maximum, OutputCharge, archived_bytes, is_exceeded, set_output, charge_counts,
  charge_attempt_output, within, over,
}

-- The attempt's row and its count
pub record Counts (id : Uuid) (n : ℕ) (db : Db) : Type 0 where
  pub row : Attempt
  pub found : find? (λ (a : Attempt). a.attempt_id) id db.attempts ≡ some row
  pub bytes : row.output_bytes ≡ n

set_output-Counts :
    (id : Uuid) (n : ℕ) (db : Db) (a : Attempt)
    → find? (λ (x : Attempt). x.attempt_id) id db.attempts ≡ some a
    → Counts id n (set_output id n db)
unfolding set_output
set_output-Counts id n db a e = record {
  row = record a { output_bytes = n };
  found =
      find?-update_at (λ (x : Attempt). x.attempt_id) id _ db.attempts a e
        (find?-key (λ (x : Attempt). x.attempt_id) id db.attempts a e);
  bytes = refl;
}

charge_counts-within :
    (id : Uuid) (bytes current archived : ℕ) (db after : Db)
    → charge_counts id bytes current archived db ≡ (within, after)
    → (after ≡ set_output id (current + bytes) db) × (current + bytes + archived ≤ maximum)
unfolding is_exceeded
charge_counts-within id bytes current archived db after q = (ground arith, ground arith)

charge_attempt_output-row :
    (id : Uuid) (bytes : ℕ) (db : Db) (a : Attempt) (r : OutputCharge × Db)
    → find? (λ (x : Attempt). x.attempt_id) id db.attempts ≡ some a
    → charge_attempt_output id bytes db ≡ some r
    → charge_counts id bytes a.output_bytes (archived_bytes id db.late_observations) db ≡ r
unfolding charge_attempt_output
charge_attempt_output-row id bytes db a r e q = ground arith

-- A charge that is within the budget adds exactly its bytes to the attempt's count, and the counts of
-- the attempt and of its archived observations together are then at most 64 MiB.
pub charge_attempt_output-Counts :
    (id : Uuid) (bytes : ℕ) (db after : Db) (a : Attempt)
    → find? (λ (x : Attempt). x.attempt_id) id db.attempts ≡ some a
    → charge_attempt_output id bytes db ≡ some (within, after)
    → Counts id (a.output_bytes + bytes) after
      × (a.output_bytes + bytes + archived_bytes id db.late_observations ≤ maximum)
charge_attempt_output-Counts id bytes db after a e q =
    let c =
      charge_counts-within id bytes a.output_bytes _ db after
        (charge_attempt_output-row id bytes db a (within, after) e q) in
    (rw c.0 (set_output-Counts id (a.output_bytes + bytes) db a e), c.1)

charge_counts-over :
    (id : Uuid) (bytes current archived : ℕ) (db after : Db) (r : OutputCharge)
    → charge_counts id bytes current archived db ≡ (r, after)
    → r.exceeded ≡ true
    → ((after ≡ db) × (is_exceeded current archived ≡ true))
      ⊎ (after ≡ set_output id (maximum + 1) db)
charge_counts-over id bytes current archived db after r q x =
    elim (Bool-cases (is_exceeded current archived)) [
      | inl o ↦ inl (ground arith, o)
      | inr o ↦ inr (ground arith)
    ]

charge_attempt_output-over :
    (id : Uuid) (bytes : ℕ) (db : Db) (a : Attempt)
    → find? (λ (x : Attempt). x.attempt_id) id db.attempts ≡ some a
    → is_exceeded a.output_bytes (archived_bytes id db.late_observations) ≡ true
    → bytes ≤ maximum
    → charge_attempt_output id bytes db ≡ some (over, db)
unfolding charge_attempt_output
charge_attempt_output-over id bytes db a e x b = ground arith

marked-exceeded :
    (current archived : ℕ) → current ≡ maximum + 1 → is_exceeded current archived ≡ true
unfolding is_exceeded
marked-exceeded current archived e = ground arith

-- An attempt that has passed its budget stays past it: once a charge is told so, each later charge
-- of a possible size is told so too and changes nothing.
pub charge_attempt_output-sticks :
    (id : Uuid) (bytes more : ℕ) (db after : Db) (a : Attempt) (r : OutputCharge)
    → find? (λ (x : Attempt). x.attempt_id) id db.attempts ≡ some a
    → charge_attempt_output id bytes db ≡ some (r, after)
    → r.exceeded ≡ true
    → more ≤ maximum
    → charge_attempt_output id more after ≡ some (over, after)
charge_attempt_output-sticks id bytes more db after a r e q x m =
    elim (charge_counts-over id bytes a.output_bytes _ db after r
      (charge_attempt_output-row id bytes db a (r, after) e q) x) [
        | inl (s, o) ↦ rw s (charge_attempt_output-over id more db a e o m)
        | inr s ↦ rw s (
            let c = set_output-Counts id (maximum + 1) db a e in
            charge_attempt_output-over id more _ c.row c.found (marked-exceeded _ _ c.bytes) m)
      ]
