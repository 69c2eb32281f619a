-- ===== src/Ledger/Put.antt =====
-- A transaction with one table replaced.
use harness_codex.Prelude.{List}
use harness_codex.Ledger.Types.{
  Dialog, Message, Request, Attempt, ControlAction, Approval, InputRequest,
}
use harness_codex.Ledger.Db.{Event}
use harness_codex.Ledger.Tx.{Work}

abbrev pub dialogs : Work → List Dialog → Work
dialogs w x = record w { db = record w.db { dialogs = x } }

abbrev pub messages : Work → List Message → Work
messages w x = record w { db = record w.db { messages = x } }

abbrev pub requests : Work → List Request → Work
requests w x = record w { db = record w.db { requests = x } }

abbrev pub attempts : Work → List Attempt → Work
attempts w x = record w { db = record w.db { attempts = x } }

abbrev pub control_actions : Work → List ControlAction → Work
control_actions w x = record w { db = record w.db { control_actions = x } }

abbrev pub events : Work → List Event → Work
events w x = record w { db = record w.db { events = x } }

abbrev pub approvals : Work → List Approval → Work
approvals w x = record w { db = record w.db { approvals = x } }

abbrev pub input_requests : Work → List InputRequest → Work
input_requests w x = record w { db = record w.db { input_requests = x } }
