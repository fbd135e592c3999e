-- ===== src/Lib.antt =====
-- ddcore: a model of the core of the ddcore engine, and what is proved of it.
--
-- The parts, with the Go files that they model:
--   Common      shared names, tests on numbers and options, list operations and their lemmas
--   Text        texts as lists of code points: the parts of Go's strings, unicode and strconv used
--   Cerr        internal/cerr/cerr.go: typed errors, Render, RetryAfter, Translate, StatusOf; and
--               the type of a call that may fail
--   Jobs        internal/engine/jobs.go, internal/engine/jobs_admin.go, the table ddcore_job of
--               internal/db/schema.go, checkActingUser of internal/engine/asuser.go. Jobs holds the
--               row and the table, Enqueue the options and the insert, Queues what a pool claims,
--               Work the claim, the heartbeat and the endings of a run, Sweep the stale sweep, Admin
--               cancel, retry and purge; the other children are proofs
--   Compat      internal/engine/compat.go and, in Compat.Checks, also internal/engine/siteversion.go:
--               Versions and Constraints read the two sorts of text, Checks judges apps by them
--   Workflow    internal/engine/workflow.go, GetState of internal/js/workflows.go; in Workflow.Apply
--               ApplyWorkflow, and WithSavepoint and BestEffort of internal/engine/engine.go
--   Tree        internal/engine/tree.go: the checks of a save and a delete; the insert of an
--               imported row, internal/engine/import.go
--   Perm        internal/engine/perm.go, internal/engine/share.go, internal/engine/fieldperm.go,
--               Perm.Has of internal/meta/meta.go: Perm has roles and shares, Fields the levels,
--               Scopes the User Permission rules, Access HasPermission; Filters the conditions that
--               bound a list, with the meaning that internal/engine/query.go and
--               internal/db/query.go give them, and Filters.Children the list of a child DocType
--   Throttle    internal/engine/throttle.go, Login of internal/engine/auth.go: the log of attempts,
--               the check with its wait, and a run of sign-ins as a step relation
--   Lifecycle   internal/engine/doc.go: Lifecycle has the documents, the tables and the calls over
--               them, Checks the docstatus, the version and the fields of a save, Save and Insert
--               the two writes in the order of their steps; the other children are proofs
--   Num         internal/num/num.go: the rounding of the text that stands for a value. Num has the
--               code; Digits, Increment and Pointed say what numbers its texts stand for
--   Args        cmd/ddcore/args.go: the reordering of a command's arguments; Parsing is what Go's
--               flag package makes of them
--   Maintenance internal/engine/maintenance.go, SetMaintenanceFlag of internal/db/schema.go: the
--               flag, its cache and the refusal; Steps has the calls that run beside each other
--   ImportOrder internal/engine/import_order.go: the stages of an import and their deferred links
--
-- How they interact: every handler answers with an error of Cerr; Perm.Access asks Workflow for the
-- state that allows edits; a workflow's condition, Save, the audit and the timeline are services
-- that Workflow.Apply takes as a record, and so are the controller's answer, the metadata and the
-- tables that Perm.Access reads. A Go function keeps its name in snake case; a function that is too
-- long for one definition has its steps beside it, under the comment that names it. Perm.Filters
-- takes HasPermission of Perm.Access as what a list is compared with; what an app's controller
-- answers to the two is a parameter. Lifecycle takes the permission checks, the tree check, the
-- hooks and the casting of values as a record of services, and the workflows of Workflow.
--
-- State: the job table and a tree's table are lists of rows, in the order of their keys, and a
-- statement is a function on the list; so are the login attempts. The documents that Insert and
-- Save read are a function from a DocType and an id, and a call that fails leaves nothing of what
-- it wrote, since its transaction is rolled back. The state of a workflow's database is a
-- parameter. Numbers are natural numbers: times are microseconds (nanoseconds in Throttle and
-- Maintenance), versions are bounded by the largest int where they are read, and a uint32 of field
-- levels is the Boolean of each bit, 0 from bit 32 on. The wait of an exponential backoff is exact
-- up to 1024 attempts, where Postgres' power would overflow.
--
-- Fuel: a number is printed with one more step than its value, which is more than its digits; the
-- walk up a tree has one more step than the table has rows, and every id that it visits but the
-- last is that of a row; a purge has one more round than rows, and each round but the last deletes
-- one; the rounds of ImportOrder are one more than the DocTypes, and each places at least one; the
-- loop of insertPoint has one more turn than decimals, and each adds a digit.
--
-- Not modelled: the HTTP API, the SQL text of the queries, a request's own filters, and the
-- migration of schemas, the JS runtime, the registry's validation, mail, printing, the import of
-- rows, files and the Desk; goroutines, contexts and log lines; caches but that of Maintenance,
-- since they repeat what a query answered; the conversions of a float64 to a text and back;
-- failures of the database in Tree, of the savepoint statements in Workflow. EqualFold takes the
-- simple case folding of a code point as a parameter. A portal page's answer and its filters are
-- services. Of documents, Delete, Amend, DBSet, Rename and the writing of child rows are left out,
-- and so are doc.flags and the writes that a tenant hands over to the platform.
pub mod Common
pub mod Text
pub mod Cerr
pub mod Jobs
pub mod Compat
pub mod Workflow
pub mod Tree
pub mod Perm
pub mod Throttle
pub mod Lifecycle
pub mod Num
pub mod Args
pub mod Maintenance
pub mod ImportOrder
