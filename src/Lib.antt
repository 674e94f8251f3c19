-- ===== src/Lib.antt =====
-- Verification of the Python packages of ApexQuant Ultra that decide: who may read a secret, which
-- flag is on, which request is authorized, which container may run, which migrations are to be run,
-- which backup may be restored, whether a recovery plan is ready, who holds a lock, and whether the
-- audit log is intact.
--
-- The parts. A service asks the secrets policy before it reads the secrets store; the store keeps
-- every version of a secret and writes itself to one encrypted file. The flag provider answers from a
-- snapshot of compiled flags, which the evaluator decides one by one, and degrades to the fail value
-- when the snapshot is old. The role checks enforce one matrix of forbidden permissions at three
-- times: when a permission is granted, when a principal is evaluated, and when a request comes. The
-- container policy reads a parsed compose file and lists what its managed services break. The audit
-- repository appends events to a hash chain, which verify_chain checks. The service versions are
-- ordered, a dependency is resolved to the highest compatible one, and a version lives from a draft
-- to its retirement. A migrator discovers numbered files, plans those that its registry does not
-- hold, and runs them under a lock. The backup service makes, checks, restores and expires backups by
-- its policies. A recovery plan is scored by the backups and the health of its components. The
-- distributed lock holds one key of a Redis server with a token of its own.
--
-- The files.
--   Common           Python's dict, enum equality, exceptions, lists, texts, decimal numerals and
--                    sorting, for all parts
--   Secrets          python/apexquant-secrets. Models: models.py. Policy: policy.py, with
--                    default_policy_rules, matches_rule and evaluate_access in Policy/Rules. Crypto:
--                    encrypt_bytes and decrypt_bytes of crypto.py. Store: store.py, with the name
--                    pattern in Store/Names, the versions of an entry in Store/Entries, and create,
--                    load, save, set_secret, rotate_secret, get_secret, get_metadata and
--                    list_metadata of LocalEncryptedSecretStore in Store/Operations. The store is a
--                    record of the master secret, the payload and the two files that save touches
--   Flags            python/apexquant-flags. Model: model.py. Evaluator: evaluator.py and
--                    determinism.py. Provider: provider.py, where a snapshot's identity is a number
--   Rbac             python/apexquant-auth/src/apexquant_auth/rbac.py. Permissions: the grammar,
--                    covers and overlaps. Checks: evaluate, authorize and validate_grant, with the
--                    parsed matrix as their argument
--   Containers       python/apexquant-container-policy. Compose: the data of models.py and
--                    compose.py. Policy: one function for each check of policy.py, and
--                    verify_document
--   Versions         python/apexquant-service-versioning. Semver: semver.py, with SemVer.parse as a
--                    reader of ASCII texts, compare, is_backward_compatible and highest_compatible;
--                    a comparison returns an Order in place of -1, 0 and 1. Repository: the class
--                    InMemoryRepository of repository.py. Service: the operations of service.py that
--                    write. Listing: those that read, with check_compatibility
--   Audit            python/apexquant-audit. Hashing: hashing.py. Repository: append_event and
--                    fetch_verification_range of repository.py over the table audit.events, whose
--                    state is its rows, as they are read back, and the next number of its identity
--                    column; Storage is what TIMESTAMPTZ and JSONB make of a value
--   Migrations       python/apexquant-migrations. Models: models.py. Planner: build_plan of
--                    planner.py. Discovery: discovery.py over a tree of directories. Registry, Loop
--                    and Postgres: PostgresMigrator of postgres.py, with its registry as a dict, its
--                    runs, the advisory lock and the state of the session's transaction. Statements
--                    and ClickHouse: split_sql and ClickHouseMigrator of clickhouse.py
--   Backups          python/apexquant-backup-recovery. Models: models.py and errors.py. Commands:
--                    commands.py and secret_refs.py. Redaction: redaction.py. Repository: the class
--                    InMemoryBackupRepository of repository.py. Service, Checking, Restoring and
--                    Retaining: service.py, with create_backup, verify_backup, restore_backup,
--                    apply_retention and run_due
--   Recovery         python/apexquant-disaster-recovery. Models: models.py. Floats and Scoring:
--                    scoring.py, over operations on floats. Repository and Verifier: the
--                    assessments and the readiness report of verifier.py, and what they read of the
--                    repository in memory
--   Locks            DistributedLock of python/apexquant-redis, lock.py. Server: the key and the
--                    commands that the lock sends. Client: its attributes and methods. System: the
--                    clients, the clock and the steps that interleave, where a call is a step of the
--                    server and a step of the client that hears of it
--
-- Conventions. An operation that changes state returns its result and the new state. An exception is
-- the err of an Outcome, and an early return an if. A text whose characters the code looks at is a
-- list of code points; lower and upper case are exact wherever the code compares with ASCII text, and
-- the names of migration files are ASCII. Most loops are recursions on the list they walk. Two are on
-- fuel: the polling loop of DistributedLock.acquire, in Client.acquire_blocking, takes a number of
-- rounds, one for each sleep, and the numerals of Decimal.str take one round more than the number
-- itself. Scrypt, AES-GCM, SHA-256, base64, xxhash, json and pydantic are other packages' code and
-- come in as parameters; what is assumed of them is a named hypothesis. So are the host and the
-- database of the migrators (Host, Engine) and the storage, the runner and the files of the backups
-- (Outside), and of disaster recovery the floats, the backup provider and the health checker. Clock
-- readings, salts and nonces are arguments. The parameters of
-- Scrypt are taken to be ones that it accepts, and the store and its temporary file to be two files.
--
-- Not modelled. HTTP applications, command lines, the SQL classes of the repositories apart from the
-- audit log's and the migrators', and the Rust crates. Of the container policy the YAML parser is
-- left out, of the role checks the reading of the matrix file, of the reports their timestamps, and
-- of the migration registry the columns applied_by and execution_time. A connection to PostgreSQL is
-- taken to be up, and the INSERT of a run to be accepted; one to ClickHouse may fail. A script that
-- ends well leaves no transaction open. The tree of migrations has no plain file where a directory is
-- made.
pub mod Audit
pub mod Backups
pub mod Common
pub mod Containers
pub mod Flags
pub mod Locks
pub mod Migrations
pub mod Rbac
pub mod Recovery
pub mod Secrets
pub mod Versions
