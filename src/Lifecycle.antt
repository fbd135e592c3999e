-- ===== src/Lifecycle.antt =====
-- The life of a document: Insert and Save of internal/engine/doc.go with the checks that they run.
-- A document's values are read as Doc.Str prints them, its docstatus as a number and `modified`
-- in microseconds; the rows of a Table field hold no rows. A call goes through a state monad over
-- the tables, and one that fails leaves nothing, since its transaction is rolled back. What the
-- calls do besides (hooks, casting, permissions, children, versions, announcements) is a record of
-- services. Left out: doc.flags, which only hooks read, and the server writes that a tenant hands
-- over to the platform.
pub mod Checks
pub mod Save
pub mod Insert
pub mod Runs
pub mod Guards
pub mod Admitted
pub mod Held
pub mod Kept
pub mod Started
mod Tests
use ddcore.Common.{ℕ, String, Bool, true, false, Option, none, some, List}
use ddcore.Cerr.{Error, Result, ok, err}
use ddcore.Workflow.{Workflow}

pub data FieldKind : Type 0 where
  layout_field table_field value_field : FieldKind

-- meta.Field, as far as the checks read it
pub record MetaField : Type 0 where
  pub fieldname : String
  pub label : String
  pub kind : FieldKind
  pub options : String
  pub allow_on_submit : Bool
  pub set_only_once : Bool

-- meta.DocType
pub record Meta : Type 0 where
  pub name : String
  pub label : String
  pub is_child : Bool
  pub is_single : Bool
  pub tool : Bool
  pub submittable : Bool
  pub track_changes : Bool
  pub fields : List MetaField

-- a row of a Table field
pub record Row : Type 0 where
  pub id : String
  pub str : String → String

-- `modified` as it stands in a document: none, a value that is no time, or a time
pub data Stamp : Type 0 where
  no_stamp bad_stamp : Stamp
  at : ℕ → Stamp

pub record Document : Type 0 where
  pub doctype : String
  pub id : String
  pub docstatus : ℕ
  pub modified : Stamp
  pub owner : String
  pub creation : String
  pub modified_by : String
  pub is_local : Bool
  pub str : String → String
  pub rows : String → List Row

abbrev pub Db : Type 0
Db = String → String → Option Document

-- a call that reads and writes the tables
abbrev pub Run : Type 0 → Type 0
Run A = Db → Result (A × Db)

unfoldable pub then_run : {A B : Type 0} → Result (A × Db) → (A → Run B) → Result (B × Db)
then_run (err e) f = err e
then_run (ok (a, s)) f = f a s

infixl 10 ◌>>=◌
abbrev pub ◌>>=◌ : {A B : Type 0} → Run A → (A → Run B) → Run B
(m >>= f) s = then_run (m s) f

unfoldable pub return : {A : Type 0} → A → Run A
return a s = ok (a, s)

unfoldable pub lift : {A : Type 0} → Result A → Run A
lift (ok a) s = ok (a, s)
lift (err e) s = err e

-- an error, if there is one
unfoldable pub refuse : Option Error → Run (Unit {0})
refuse none s = ok (tt, s)
refuse (some e) s = err e

abbrev pub unless : Bool → Error → Option Error
unless true e = none
unless false e = some e

-- a question to the tables that has to be answered with yes
abbrev pub answered : Result Bool → Error → Result (Unit {0})
answered (err f) e = err f
answered (ok true) e = ok tt
answered (ok false) e = err e

unfoldable pub ask : (Db → Result Bool) → Error → Run (Unit {0})
unfolding lift
ask q e s = lift (answered (q s) e) s

-- what the caller brings
pub record Session : Type 0 where
  pub user : String
  pub ignore_permissions : Bool
  pub in_workflow_transition : Bool
  pub now : ℕ

-- SaveOpts, of the fields that Insert and Save read
pub record SaveOpts : Type 0 where
  pub ignore_permissions : Bool
  pub ignore_version : Bool

-- `clean`: normalizeMultiSelect, dropComputed and dropInternal; `cast`: a field's value as
-- castValue and db.Str print it; `same_moment`: a Datetime whose two values name one time;
-- `same_rows`: a Table field whose rows are alike but for their ids and metadata; `checked`:
-- castAll, fetchFrom and checkReadOnlyDependsOn; `validated`: what validate does after its hook;
-- `write_rest`: child rows, attachments and vault fields; `announced`: afterWrite; `user_permissions`: checkUserPermissions; `in_scope`: scopeAllows;
-- `row_refusal`: a constraint of the table that a new row breaks.
pub record Services : Type 0 where
  pub doctype : String → Result Meta
  pub workflow_for : String → Option (String × Workflow)
  pub check_writable : String → Option Error
  pub refuse_virtual : Meta → Option Error
  pub space_refusal : Meta → Bool → Bool → Option Error
  pub lock_tree : Meta → Option Error
  pub clean : Meta → Document → Option Document → Document
  pub permitted : Meta → String → Document → Db → Result Bool
  pub in_scope : Meta → String → Document → Db → Result Bool
  pub user_permissions : Meta → Document → Db → Result Bool
  pub has_restricted_fields : Meta → Bool
  pub field_base : Meta → Document → Result Document
  pub field_writes : Meta → Document → Document → Result Document
  pub cast : MetaField → (String → String) → String
  pub same_moment : MetaField → (String → String) → (String → String) → Bool
  pub same_rows : String → Document → Document → Bool
  pub hook : String → Meta → Document → Option Document → Run Document
  pub checked : Meta → Document → Option Document → Run Document
  pub validated : Meta → Document → SaveOpts → Run Document
  pub check_tree : Meta → Document → Option Document → SaveOpts → Db → Option Error
  pub set_id : Meta → Document → Run Document
  pub row_refusal : Meta → Document → Db → Option Error
  pub write_rest : Meta → Document → Run (Unit {0})
  pub save_version : Meta → Document → Document → Db → Db
  pub announced : Meta → String → Option Document → String → Run Document
  pub sprint : ℕ → String
