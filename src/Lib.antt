-- ===== src/Lib.antt =====
-- The core of db-controller, a Kubernetes controller that provisions databases for DatabaseClaim
-- resources and migrates them, as functions that can be run and theorems about them.
--
-- How a claim is reconciled: pkg/databaseclaim/databaseclaim.go reads a claim, derives from it and
-- from the settings what it asks for (pkg/databaseclaim/requestinfo.go, pkg/hostparams), chooses a
-- mode (pkg/databaseclaim/modeenum.go) and runs that mode's handler. A handler reports through the
-- status manager (pkg/databaseclaim/claimstatus.go), keeps credentials in secrets
-- (pkg/databaseclaim/secrets.go), and runs a migration as a state machine whose states are in
-- pkg/pgctl; the name of the state is stored in the claim, so that a restart goes on from it.
--
-- Which file models which part:
--   Api (Error, Connection, Claim, Condition, RoleClaim): the types of api/v1, conditions, errors.
--   Config: the settings of pkg/basefunctions, over viper's look-ups.
--   HostParams: pkg/hostparams/hostparams.go; `new` is New, `fill` and `check_storage` its parts.
--   RequestInfo: pkg/databaseclaim/requestinfo.go.
--   Mode: getMode of pkg/databaseclaim/modeenum.go, which returns the claim that it changes.
--   DbUser: pkg/dbuser/dbuser.go.
--   Pgctl (State, Postgres, Execute, Names, Tools): stateEnum.go, pgctl.go, pgdump.go and
--     pgrestore.go in pkg/pgctl. `State` enumerates the state types; `execute_x` is the method
--     Execute of x_state, and `tools` what copy_schema_state makes of pg_dump, sed and psql.
--   StatusManager: pkg/databaseclaim/claimstatus.go, a function for each method.
--   ConnectionString (Uri): the strings that pkg/dbclient/client.go builds for secrets, and the URIs
--     of api/v1/databaseclaim_types.go.
--   Sql, DbClient (Connect, Databases, Roles, Users, Existing): pkg/dbclient/client.go, whose
--     statements and queries are the constructors of `Statement` and `Query`.
--   HostName: the names of cloud resources. Passwords: their generation.
--   Secrets: pkg/databaseclaim/secrets.go, and rerouteTargetSecret of databaseclaim.go.
--   Users: manageUserAndExtensions of databaseclaim.go. Provisioning: reconcileNewDB.
--   Aws (Ready, ParamGroups, Updates, Instances, Hosts): pkg/databaseclaim/awsprovider.go, and
--     isResourceReady of databaseclaim.go.
--   Gcp (Hosts, Connection): pkg/databaseclaim/gcpprovider.go.
--   Webhook (Inject, Defaulter, Conversion): internal/webhook.
--   Dbproxy (Config, Write, Serve): dbproxy/dbproxy.go and dbproxy/pgbouncer/config.go.
--   ExistingDb: reconcileUseExistingDB. Reconciler: what the controller calls.
--   Reconcile (Entry): executeDbClaimRequest and Reconcile.
--   RoleController (Secret, Deletion, Reconcile): pkg/roleclaim/roleclaim.go.
--   Migration (Begin): reconcileMigrateToNewDB and reconcileMigrationInProgress of
--     pkg/databaseclaim/databaseclaim.go: the credentials that are gathered, the loop, the copies of
--     the role claims, and the switch to the new database behind it.
--   Tags: configureBackupPolicy and manageOperationalTagging of databaseclaim.go, and the functions
--     on tags in pkg/databaseclaim/awsprovider.go.
--   Cleanup: postMigrationInProgress of databaseclaim.go, with the deletions of awsprovider.go.
--   Credentials (Source): pkg/databaseclaim/creds.go, pkg/kctlutils/kctl.go and pkg/auth.
--   Prelude: shared tests, texts, integers, maps. Exec: handlers that change a state and may fail.
--   Examples: a claim, small worlds in which the calls can be run, and the theorems at these inputs.
--
-- What stands outside is a record of operations that the definitions take: `Cluster` for the API
-- server and the clock, `Databases` for PostgreSQL and the copy of a schema, whose operations
-- `tools` of Pgctl.Tools fills by `Shell`, which runs pg_dump, sed and psql, `Resources` for Crossplane's
-- resources, `Sql` for net/url and database/sql, `Viper` for the settings, `Passwords` for the random
-- generator, `Provider` for the work of the cloud providers as the controller calls it,
-- `Crossplane` and `Alloy` for the resources that the hosts on AWS and GCP are made of, `Reader` for
-- what the webhooks read, `Host` for the files, the watcher and the scripts of dbproxy, and
-- crc32.Checksum. Where a theorem needs more than the type of an operation (an update that
-- succeeds is read back), that is a hypothesis of the theorem.
--
-- How the model corresponds to the code: an error is a value beside the state that the call leaves,
-- since Go undoes nothing; a nil dereference is the result `panic`; a pointer that may be nil is an
-- `Option`; the claim that handlers change in place is part of the state `Context`. Integers of Go
-- that may be negative are ℤ; they are compared, or computed with from settings and times, far from
-- the bounds of 64 bits, and the int16 of a port in dbproxy wraps. The migration loop runs on fuel, with 18 turns: the numbers of the states
-- are below 18, and each turn goes on to a greater one. Where Go visits a map in any order, the
-- model visits the list that stands for it.
--
-- Not modelled: logs and metrics; IAM authentication; dsnexec, which runs beside a pod;
-- labels and owner references of what the controllers make; the resource versions of claims. The
-- controller calls the work on the clouds through `Provider`, whose handlers are any.
pub mod Api
pub mod Aws
pub mod Cleanup
pub mod Cluster
pub mod Config
pub mod ConnectionString
pub mod Credentials
pub mod DbClient
pub mod DbUser
pub mod Dbproxy
pub mod Examples
pub mod Exec
pub mod ExistingDb
pub mod Gcp
pub mod HostName
pub mod HostParams
pub mod Migration
pub mod Mode
pub mod Passwords
pub mod Pgctl
pub mod Prelude
pub mod Provisioning
pub mod Reconcile
pub mod Reconciler
pub mod RequestInfo
pub mod RoleController
pub mod Secrets
pub mod Sql
pub mod StatusManager
pub mod Tags
pub mod Users
pub mod Webhook
