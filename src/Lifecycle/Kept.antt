-- ===== src/Lifecycle/Kept.antt =====
-- What Save, of internal/engine/doc.go, writes over a stored document.
use ddcore.Common.{◌≡◌, none}
use ddcore.Cerr.{ok}
use ddcore.Lifecycle.{Document, Meta, Db, Session, SaveOpts, Services}
use ddcore.Lifecycle.Checks.{Action, status_action, check_set_only_once}
use ddcore.Lifecycle.Save.{write_update, after_submit_check}
use ddcore.Lifecycle.Guards.{asked}

module _ (sv : Services) (c : Session) (d : Meta) (opts : SaveOpts) where
  module _ (doc : Document) where
    -- a document that a save writes over the stored one, at a moment at which the row still carries
    -- the time that it was read with
    abbrev pub IsWritten : Document → Document → Type 0
    IsWritten before w =
        (s : Db) × (t : Db) × (write_update sv c d w before.modified s ≡ ok (tt, t))

    abbrev Written : Document → Type 0
    Written before =
        (w : Document) × (a : Action) × IsWritten before w
        × (status_action sv.sprint d doc.id c.in_workflow_transition before.docstatus
              (asked sv c d doc opts before).docstatus
            ≡ ok a)
        × (after_submit_check sv c d a before w ≡ none)
        × (check_set_only_once sv d before w ≡ none)
