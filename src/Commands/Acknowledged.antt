-- ===== src/Commands/Acknowledged.antt =====
-- The reply to a command whose outcome is stored.
use harness_codex.Prelude.{
  ◌≡◌, refl, ap, sym, ◌∙◌, inl, inr, true, false, Option, none, some, [], ◌∷◌, ◌++◌, ◌==◌,
  if◌then◌else◌, ℕ, Bool-cases, ==_refl, find?-append_found, find?-append_other,
}
use harness_codex.Ledger.Types.{Uuid}
use harness_codex.Ledger.Wire.{Envelope}
use harness_codex.Ledger.Db.{Db, CommandRow, CommandRejection}
use harness_codex.Ledger.Tx.{
  Config, Work, Code, outdated, stale_state, refused, internal, Result, err, ok, load_state, guard,
  gets, ◌>>=◌, pure, continue,
}
use harness_codex.Ledger.Durable.{command_row, rejection_row, IsUnused}
use harness_codex.Ledger.Leads.{Ends}
use harness_codex.Commands.Lookup.{
  Stored, accepted, rejected, stored_hash, load_outcome, targets_deleted,
}
use harness_codex.Commands.Host.{Host, Trust, same_identity}
use harness_codex.Commands.Reply.{Reply, ReplyBody, receipt, rejection, refusal}
use harness_codex.Commands.Submit.{
  Verdict, replayed, admitted, held, decide, command_tx, settle, begin, is_delete, stored_reply,
  submit_command,
}
use harness_codex.Commands.Outcomes.{accepted_row, rejected_row, Stores, command_tx-Stores}
use harness_codex.Commands.Repeat.{conclude-committed, Delivers, conclude-Delivers}

-- What is stored of a command is this outcome alone.
abbrev pub OnlyOutcome : Stored → Option CommandRow → Option CommandRejection → Type 0
OnlyOutcome (accepted r) a b = (a ≡ some r) × (b ≡ none)
OnlyOutcome (rejected r) a b = (a ≡ none) × (b ≡ some r)

abbrev pub Stands : Uuid → Stored → Db → Type 0
Stands id o db = OnlyOutcome o (command_row id db) (rejection_row id db)

abbrev pub receipt_of : Stored → ReplyBody
receipt_of (accepted r) = receipt r.receipt
receipt_of (rejected r) = rejection r.receipt

pub Stands-command :
    (id : Uuid) (o : Stored) (db : Db) (c : CommandRow)
    → IsUnused c.command_id db
    → Stands id o db
    → Stands id o (record db { commands = db.commands ++ c ∷ [] })
Stands-command id (accepted r) db c f p =
    (find?-append_found (λ (x : CommandRow). x.command_id) id db.commands c r p.0, p.1)
Stands-command id (rejected r) db c f p =
    (find?-append_other (λ (x : CommandRow). x.command_id) id db.commands c p.0 (λ q. cc), p.1)

pub Stands-rejection :
    (id : Uuid) (o : Stored) (db : Db) (c : CommandRejection)
    → IsUnused c.command_id db
    → Stands id o db
    → Stands id o (record db { command_rejections = db.command_rejections ++ c ∷ [] })
Stands-rejection id (accepted r) db c f p = (
  p.0,
  find?-append_other (λ (x : CommandRejection). x.command_id) id db.command_rejections c p.1
      (λ q. cc),
)
Stands-rejection id (rejected r) db c f p = (
  p.0,
  find?-append_found (λ (x : CommandRejection). x.command_id) id db.command_rejections c r p.1,
)

-- The reply to the same command, once its outcome is stored
abbrev pub repeat_reply : Config → Trust → Stored → Db → Reply
repeat_reply c t o db =
    if same_identity c db.node_state t.expected_identity
    then (if targets_deleted db o then refusal 404 Code.not_found else stored_reply o)
    else refusal 409 Code.stale

load_outcome-Stands :
    (id : Uuid) (o : Stored) (w : Work) → Stands id o w.db → load_outcome id w ≡ ok (some o, w)
unfolding load_outcome pure ◌>>=◌
load_outcome-Stands id (accepted r) w p = rw (p.0, p.1) refl
load_outcome-Stands id (rejected r) w p = rw (p.0, p.1) refl

-- The first reply to a command and the outcome that its commit stored
abbrev pub Acknowledged : Envelope → Reply × Db → Type 0
Acknowledged e r =
    (o : Stored) × (stored_hash o ≡ e.digest)
    × Stands e.command_id o r.1
    × Delivers (receipt_of o) r.0

settle-Acknowledged :
    (e : Envelope) (h : Host) (db : Db) (r : Result (Verdict × Work))
    → Ends (Stores e) r
    → (settle h db r).0.committed ≡ true
    → Acknowledged e (settle h db r)
settle-Acknowledged e h db (err (outdated v s)) p q = cc
settle-Acknowledged e h db (err (stale_state s)) p q = cc
settle-Acknowledged e h db (err (refused v s)) p q = cc
settle-Acknowledged e h db (err internal) p q = cc
settle-Acknowledged e h db (ok (replayed (accepted r), w)) p q = cc
settle-Acknowledged e h db (ok (replayed (rejected r), w)) p q = cc
settle-Acknowledged e h db (ok (admitted r, w)) p q = (
  accepted (accepted_row e r),
  refl,
  rw (conclude-committed h _ db w.db q) p,
  conclude-Delivers h (receipt r) 202 db w.db q,
)
settle-Acknowledged e h db (ok (held r, w)) p q = (
  rejected (rejected_row e p.0 r),
  refl,
  rw (conclude-committed h _ db w.db q) p.1,
  conclude-Delivers h (rejection r) 409 db w.db q,
)

-- The command is for this node, and is no deletion.
abbrev pub IsEntered : Config → Trust → Envelope → Type 0
IsEntered c t e = ((t.transport_node_id == c.node_id) ≡ true) × (is_delete e.body ≡ false)

pub submit_command-Acknowledged :
    (c : Config) (t : Trust) (e : Envelope) (h : Host) (db : Db)
    → (submit_command c t (some e) h db).0.committed ≡ true
    → IsEntered c t e × Acknowledged e (submit_command c t (some e) h db)
unfolding submit_command
submit_command-Acknowledged c t e h db q = elim (Bool-cases (t.transport_node_id == c.node_id)) [
  | inr n ↦ cc
  | inl n ↦ elim (Bool-cases (is_delete e.body)) [
    | inl d ↦ cc (rw (n, d) at q)
    | inr d ↦ (
      (n, d),
      rw (n, d)
          (settle-Acknowledged e h db (command_tx t h e (begin c h db))
            ((command_tx-Stores t h e).at (begin c h db) tt) (rw (n, d) at q)),
    )
  ]
]

decide-stored :
    (c : Config) (h : Host) (e : Envelope) (o : Stored) (db : Db)
    → stored_hash o ≡ e.digest
    → settle h db (decide h e (some o) (begin c h db))
      ≡ ((if targets_deleted db o then refusal 404 Code.not_found else stored_reply o), db)
unfolding ◌>>=◌ gets guard pure
decide-stored c h e o db k = elim (Bool-cases (targets_deleted db o)) [
  | inl x ↦ rw (k, ==_refl e.digest, x) refl
  | inr x ↦ rw (k, ==_refl e.digest, x) refl
]

identified :
    (c : Config) (t : Trust) (e : Envelope) (h : Host) (db : Db)
    → same_identity c db.node_state t.expected_identity ≡ true
    → command_tx t h e (begin c h db)
      ≡ (load_outcome e.command_id >>= λ o. decide h e o) (begin c h db)
unfolding command_tx ◌>>=◌ gets guard load_state
identified c t e h db i = rw i refl

misidentified :
    (c : Config) (t : Trust) (e : Envelope) (h : Host) (db : Db)
    → same_identity c db.node_state t.expected_identity ≡ false
    → command_tx t h e (begin c h db) ≡ err (refused 409 Code.stale)
unfolding command_tx ◌>>=◌ gets guard load_state
misidentified c t e h db i = rw i refl

looked_up :
    (c : Config) (e : Envelope) (o : Stored) (h : Host) (db : Db)
    → Stands e.command_id o db
    → (load_outcome e.command_id >>= λ o. decide h e o) (begin c h db)
      ≡ decide h e (some o) (begin c h db)
unfolding ◌>>=◌
looked_up c e o h db p =
    ap (λ r. continue r (λ o. decide h e o)) (load_outcome-Stands e.command_id o (begin c h db) p)

settle-stored :
    (c : Config) (t : Trust) (e : Envelope) (o : Stored) (h : Host) (db : Db)
    → stored_hash o ≡ e.digest
    → Stands e.command_id o db
    → settle h db (command_tx t h e (begin c h db)) ≡ (repeat_reply c t o db, db)
settle-stored c t e o h db k p =
    elim (Bool-cases (same_identity c db.node_state t.expected_identity)) [
      | inl i ↦
          ap (λ r. settle h db r) (identified c t e h db i ∙ looked_up c e o h db p)
          ∙ decide-stored c h e o db k
          ∙ ap
              (λ b. (
                (if b
                    then (if targets_deleted db o
                        then refusal 404 Code.not_found
                        else stored_reply o)
                    else refusal 409 Code.stale),
                db,
              ))
              (sym i)
      | inr i ↦
          ap (λ r. settle h db r) (misidentified c t e h db i)
          ∙ ap
              (λ b. (
                (if b
                    then (if targets_deleted db o
                        then refusal 404 Code.not_found
                        else stored_reply o)
                    else refusal 409 Code.stale),
                db,
              ))
              (sym i)
    ]

pub submit_command-repeat :
    (c : Config) (t : Trust) (e : Envelope) (o : Stored) (h : Host) (db : Db)
    → IsEntered c t e
    → stored_hash o ≡ e.digest
    → Stands e.command_id o db
    → submit_command c t (some e) h db ≡ (repeat_reply c t o db, db)
unfolding submit_command
submit_command-repeat c t e o h db (n, d) k p = rw (n, d) (settle-stored c t e o h db k p)

-- An error reply, and the ledger as it was
abbrev pub IsRefused : Db → Reply × Db → Type 0
IsRefused db r = (status : ℕ) × (code : Code) × (r ≡ (refusal status code, db))

decide-other :
    (c : Config) (h : Host) (e : Envelope) (o : Stored) (db : Db)
    → (stored_hash o == e.digest) ≡ false
    → settle h db (decide h e (some o) (begin c h db)) ≡ (refusal 409 Code.id_conflict, db)
unfolding ◌>>=◌ gets guard pure
decide-other c h e o db k = rw k refl

settle-other :
    (c : Config) (t : Trust) (e : Envelope) (o : Stored) (h : Host) (db : Db)
    → (stored_hash o == e.digest) ≡ false
    → Stands e.command_id o db
    → IsRefused db (settle h db (command_tx t h e (begin c h db)))
settle-other c t e o h db k p =
    elim (Bool-cases (same_identity c db.node_state t.expected_identity)) [
      | inl i ↦ (
        409,
        Code.id_conflict,
        ap (λ r. settle h db r) (identified c t e h db i ∙ looked_up c e o h db p)
            ∙ decide-other c h e o db k,
      )
      | inr i ↦ (409, Code.stale, ap (λ r. settle h db r) (misidentified c t e h db i))
    ]

pub submit_command-other :
    (c : Config) (t : Trust) (e : Envelope) (o : Stored) (h : Host) (db : Db)
    → (stored_hash o == e.digest) ≡ false
    → Stands e.command_id o db
    → IsRefused db (submit_command c t (some e) h db)
unfolding submit_command
submit_command-other c t e o h db k p = elim (Bool-cases (t.transport_node_id == c.node_id)) [
  | inr n ↦ rw n (404, Code.not_found, refl)
  | inl n ↦ elim (Bool-cases (is_delete e.body)) [
    | inl d ↦ rw (n, d) (403, Code.forbidden, refl)
    | inr d ↦ rw (n, d) (settle-other c t e o h db k p)
  ]
]
