-- ===== src/Lib.antt =====
-- ResearchAgentOps: the runtime store of the research control plane, and some of its services.
--
-- The program coordinates agents that work on the Tasks of a research project. Its CLI and services
-- (src/researchctl/services, src/researchctl/*_cli.py) keep all of their run-time state in one SQLite
-- database, through the class RuntimeStore of src/researchctl/runtime/store.py. That class is
-- modelled here: a method checks its arguments, runs one transaction, and reads its result back. Of
-- the services, these are modelled: the policy of Task states, the files of the Task records and the
-- service's writes of them, the evaluators that match changed paths and provider receipts against
-- declared dependencies, the actors, and the worker that takes deliveries from the store, projects them
-- as comments to Linear and hands the outcome back.
--
-- Files:
--   Base         shared names, Boolean tests, equality as an instance, lists, sorting (ORDER BY,
--                LIMIT and sorted), and tables with the queries that the SQL statements make (find,
--                select, update, delete)
--   Json         JSON values and the text that json.dumps gives them
--   Errors       the error codes, and results
--   Exec         methods that read and write the store and may raise; rules for relations between
--                the stores before and behind a run (Respects), for invariants together with the
--                absence of IntegrityError (Upholds), for runs that return (Inversion), and for the way a
--                run ends (Ensures)
--   Store/Schema          the tables (_MIGRATION_1 to _MIGRATION_3) and the records of
--                         src/researchctl/runtime/models.py
--   Store/Checks          _require_text, _require_digest, _encode_time, _json_object
--   Store/Transaction     _write_transaction (commit, or roll back on a raise), _read_lock, INSERT
--   Store/Operations      begin_operation, append_operation_event, finish_operation,
--                         get_operation, list_operations
--   Store/Sessions        save_session, update_session_state, authenticate_session,
--                         rotate_session_token, get_session, list_sessions
--   Store/Notifications   create_notification, ack_notification, get_notification
--   Store/Replies         reply_notification, _published_notification_reply
--   Store/Delivery        enqueue_linear_projection, claim_linear_delivery, finish_linear_delivery
--   Store/Delivery/Receipts  _insert_linear_delivery_receipt
--   Store/Delivery/Records   list_linear_deliveries, get_linear_delivery, _query_linear_deliveries,
--                         get_linear_delivery_status, get_linear_delivery_receipt; Lineage is
--                         _linear_delivery_lineage, and Shown what a listing shows
--   Store/Delivery/Ended     what a claim and an outcome leave where they return
--   Store/Delivery/Settled   a delivery that has ended, under each of these methods
--   Store/Status          publish_status_update, attention_dedupe_key, get_status_update, get_outbox
--   Store/Attention       _upsert_attention, ack_attention, snooze_attention, resolve_attention,
--                         get_attention, list_inbox
--   Store/Listings        list_notifications, list_linear_projection_outbox,
--                         list_notification_reply_outbox, list_status_updates, list_outbox
--   Store/Ingress         record_verified_linear_ingress, require_verified_notification_origin,
--                         resolve_verified_source_marker
--   Task/Policy           src/researchctl/services/task_policy.py
--   Task/Records          src/researchctl/services/task_records.py
--   Task/Records/Reads    what its methods read
--   Task/Records/Kept     a directory behind one write
--   Task/Records/Swap, Insert, Cancel  replace, create and cancel on the map from Task IDs to records
--   Task/Service          task_create, task_update, task_cancel, _validate_task_policy of
--                         src/researchctl/services/application.py
--   Task/Service/Allowed  a directory behind one of these
--   Actor                 src/researchctl/services/actor.py
--   Linear/Envelope       add_linear_transport_envelope, strip_linear_transport_envelope of
--                         src/researchctl/services/linear_delivery.py
--   Linear/Remote         the ports to Linear and what they answer with, Linear UUIDs, the platform
--   Linear/Comments       what deliveries ask of the port: the laws of a Linear that keeps comments
--   Linear/Marker         linear_delivery_marker, parse_linear_delivery_marker
--   Linear/Accepted       LinearAcceptedResultEvent, linear_delivery_event_id, _validate_event
--   Linear/Accepted/Target   _validate_remote_target
--   Linear/Accepted/Payload  linear_event_payload; Reading is linear_event_from_payload
--   Linear/Accepted/Outcome  LinearDeliveryOutcome, _dead_letter, _retryable, _delivered
--   Linear/Accepted/Deliver  deliver, _validate_comment
--   Linear/Reply          build_linear_session_reply_event of src/researchctl/services/linear_worker.py
--   Linear/Reply/Project  _project_reply, _validate_reply_comment, _reply_receipt
--   Linear/Worker         run_once, _deliver_accepted, _deliver_reply, _finish; Receipt is
--                         linear_receipt_payload and the receipt of a reply
--   */Once, */Delivered   the comments of repeated attempts, and what a delivered one stands for
--   Linear/Worker/Reports, Settles  what the worker hands to the store, and what a call leaves there
--   Impact/Paths          path_dependency_matches of src/researchctl/services/dependency_impact.py
--   Impact/Evaluation     PathDependencyImpactEvaluator, DeclaredDependencyImpactEvaluator and
--                         DependencyImpactEvaluation of the same file
--   Impact/Dependencies   DependencySet, DependencyChangeObservation, DependencyChangeReceipt of
--                         src/researchctl/domain/models.py
--   Impact/Canonical      lists that are sorted, without repetition
--   Impact/Evaluation/Seen, Keys  the dict of the observations: what it holds, and its keys in order
--   Impact/Evaluation/Classified, Returned  what an evaluation says, and when there is one
--   Store/*/Rows          the rows of a component's tables, and the statements that write them;
--                         Delivery/Enqueue, Attention/Upsert and Ingress/Markers are the methods
--                         enqueue_linear_projection, _upsert_attention and
--                         resolve_verified_source_marker of their components
--   Store/Leaves, */Aside    steps that leave the Sessions, or the replies, as they are
--   */History             sequences of calls
--   */Samples             tests and instances at concrete inputs
--
-- How the model corresponds to the code:
--   - A table is the list of its rows, the newest first. A UNIQUE, PRIMARY KEY or REFERENCES
--     constraint is the test that insert_row makes; a row that breaks one raises IntegrityError.
--   - The methods of one connection run one at a time under its lock, and BEGIN IMMEDIATE admits
--     one writer of the database, so a history is a sequence of calls. A connection that waits longer
--     than the busy timeout raises runtime_store_busy: the flag writer_busy. closed is _ensure_open.
--   - A timestamp is the number of microseconds since the epoch, which orders as its fixed-width UTC
--     text does. Times before the epoch, and a lease that passes the greatest datetime, are outside
--     of the model.
--   - A JSON column is its canonical text with the value that it was written from. Finite floats are
--     not modelled. Python's == of metadata is equality of the canonical texts with True as 1 and False
--     as 0, which == takes them for.
--   - SHA-256, the case folding of a text, the text of a time, the validation of a source marker and
--     the JSON value of a status update (hashlib, str, datetime, pydantic) are parameters.
--   - A directory of Task records is the list of its files. The YAML text of a record, its parse and
--     its digest (yaml, pydantic and hashlib behind researchctl/serialization.py) are parameters. A
--     write takes the lock of the directory and replaces or links one file at once. A call is taken
--     as one step, also where cancel or the service loads the record ahead of the lock.
--   - The application service's writes of Task records are the parts of its commands between the
--     claim of the operation and the events of its journal.
--   - Linear is a port over a world of any type: a call answers, or is unavailable, in a new world.
--     What the code relies on is the record IsLinear: only create_comment changes the comments, by one
--     at most, and observe_comment misses no comment of the app with the marker. The adapter that
--     implements the port is not modelled.
--   - Platform has what the deliveries call outside of the repository: SHA-256, UTF-8, str and int of
--     a JSON value, and the validation of two records by pydantic.
--   - run_once is a step on the store and the world; the two times that it reads from the clock are
--     arguments. A receipt has its event as a field in place of copies of the event's fields.
--   - A text field of a record of domain/models.py is any text: the patterns of pydantic's constrained
--     strings are not modelled, and of a DependencyChangeReceipt only what the evaluators read.
--   - sorted is insertion sort by code points, a set of texts a list without repetition, and the dict of
--     the observations the list of those seen.
--   - Recursion is structural. The decimal digits of n take n + 1 as fuel: a number has at most as
--     many digits as that.
--
-- Not modelled: the opening of the database, its migrations and file permissions; corrupt columns;
-- the other programs around the store; temporary files, fsync and symbolic links of the Task
-- directory; the journal and the authorization of the service's commands; the enqueueing of accepted
-- results, which reads the records of a merge from git and renders a preview. The services for Runs,
-- submissions, reviews, documents and CI stand on git, GitHub, processes and parsers, which are
-- programs outside of the repository, and on the command line that calls them.

pub mod Base
pub mod Json
pub mod Errors
pub mod Exec
pub mod Store
pub mod Task
pub mod Actor
pub mod Linear
pub mod Impact
