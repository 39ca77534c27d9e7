-- ===== src/Lib.antt =====
-- A verification library for OpenClaw Manager, which lets the people of an office create, run and
-- share instances of the products OpenClaw, EvoScientist and Hermes.
--
-- The parts of the program. services/manager-web is the web front: pages for users and
-- administrators, and metadata_store.py, the store that all services import. services/manager-control
-- is the HTTP service that owns the store: it authenticates, checks who may do what, and queues
-- execution jobs. services/manager-executor is the one worker: it claims a job through
-- manager-control, runs shell scripts for it, and reports its end. services/model-proxy stands
-- between the instances and the model providers.
--
-- The files.
--   Common and its children: options, tests, lists, and tables as lists of rows with the statements
--     SELECT, INSERT, UPDATE, DELETE and INSERT ... ON CONFLICT.
--   Store: services/manager-web/metadata_store.py.
--     Rows: the tables of db/schema.sql, Error: its exceptions and transactions.
--     Jobs: create_execution_job and update_execution_job; Jobs/Claim: claim_next_execution_job.
--     Jobs/Listing: list_execution_jobs. Users: users and identities. Legacy: upsert_instance and the
--     reads by a legacy user id.
--     Ports: record_port and the endpoints. Instances: create_instance. Provisioning:
--     finish_instance_provisioning and upsert_credentials. Lifecycle: the set_instance_* functions and
--     the two purges. Members: add_instance_member, remove_instance_member and the queries of a
--     user's instances. Credentials: passwords and login failures. Sessions: sessions, settings and
--     the active provider. Operations: record_operation.
--     The files below each of these hold its proofs, and Store/Tests the sample states and runs.
--   Control: services/manager-control/app.py. Access: instance_for_entry, require_instance_auth,
--     resolve_auth_session and authorize_instance_access. Cancellation: cancel_execution_job.
--     Submission: the handler create_execution_job, with its early returns as lists of conditions.
--     Updates: the handler update_execution_job, with the records that it writes in Updates/Audit and
--     the check of a creation's result in Creation. Replies: what a handler answers.
--   Json: the values of a request's body.
--   Bridge: services/manager-control/hermes_auth_bridge.py. Clients, Grants and Redemption are the
--     methods of BridgeStore, Keys is SigningKeys. The tables hermes_auth_* stand in a state of their
--     own around the state of the store; a deletion of an instance or a user that takes rows of theirs
--     along is one of the steps of Bridge/History.
--   Tenant: scripts/tenant_network_allocator.py. Addresses: IPv4 networks as numbers, Allocation: the
--     plan of subnets, with the answers of Docker and of the host as arguments.
--   Executor: services/manager-executor/executor.py, the function run_once with its branches in
--     Executor/Actions, Executor/Creation and Executor/Binding, and Executor/Run around them. What
--     manager-control, the adapters and Docker do is the record Services over a world of their own.
--     The loop that follows the installer of a binding runs over the lines that the process writes.
--     A command is a call of an adapter that returns a code and an output; the two commands of docker
--     compose and of the networks that reload_nginx_after_create has the adapter run are commands of
--     their own. What an adapter runs inside one method, and its queries of a status, are not counted.
--   Proxy: services/model-proxy/app.py. Gate: who may ask and for what, Headers: the headers in both
--     directions, Target: the URL for a path, Forwarding: the handler proxy and the list of models.
--   Capabilities: services/manager-web/product_capabilities.py.
--
-- How the model corresponds to the code. An operation takes the state of the database to a result
-- and a new state, or to an error; an error leaves no state, since `connect` rolls back; the
-- handlers and the bridge return the state beside the answer, as two methods of the bridge raise
-- after they have committed. What the code takes from outside is an argument: the readings of the
-- clock, generated UUIDs, the directories named by the environment, the folding of user names, and
-- what `str` and the database make of a JSON value. A timestamp is a number of seconds; all are
-- written in UTC in one layout, so their texts compare as the numbers do. UNIQUE constraints and
-- indexes, foreign keys and their ON DELETE actions are written out where a statement can violate
-- them, in the order of the schema. A constraint that holds by what the function has just read,
-- such as the user of a membership, is not tested again. A stale limit before the epoch is cut off
-- at 0. Loops over rows are structural recursion on the list of rows, so no fuel is needed.
--
-- Not modelled: the pages and HTTP plumbing, Docker and shell commands, configuration files, the
-- profile columns of identities, activity snapshots, the paged listings of the audit log,
-- migrations, deployment scripts, the creation of the planned networks, the observation of the
-- requests to the model proxy, and so far the other handlers of manager-control. Arguments in
-- place of functions of the repository: verify_client_secret, a comparison of scrypt digests,
-- validate_model_provider_params, sanitize_creation_error, and the readers of a new instance's
-- metadata in the executor.
pub mod Bridge
pub mod Capabilities
pub mod Common
pub mod Control
pub mod Executor
pub mod Json
pub mod Proxy
pub mod Store
pub mod Tenant
