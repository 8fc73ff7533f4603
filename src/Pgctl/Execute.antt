-- ===== src/Pgctl/Execute.antt =====
-- pkg/pgctl/pgctl.go: the `Execute` method of each state. `none` is the nil state that a completed
-- migration and a retry return.
pub mod Progress
pub mod Counts
pub mod InStep
pub mod Successor
use Prim.Native.String
use Prim.Native.String.{len}
use Prim.Native.Char.{code}
use db_controller.Prelude.{
  ℕ, ◌+◌, ltb, eqb, String, Bool, true, false, not, ◌&&◌, Option, none, some, List, [], ◌∷◌, ◌==◌,
  ◌<>◌, if◌then◌else◌,
}
use db_controller.Api.Error.{Err, Result, ok, err, panic, message, followed}
use db_controller.Exec.{Exec, pure, fail, ask, lift, attempt, rescue, ◌>>=◌, ◌>>◌}
use db_controller.Pgctl.Postgres.{Config, Databases}
use db_controller.Pgctl.State.{
  State, initial_state, validate_connection_state, create_publication_state, copy_schema_state,
  create_subscription_state, enable_subscription_state, cut_over_readiness_check_state,
  reset_target_sequence_state, reroute_target_secret_state, wait_to_disable_source_state,
  disable_source_access_state, validate_migration_status_state, disable_subscription_state,
  delete_subscription_state, delete_publication_state, completed_state, retry_state,
}

abbrev pub default_pub_name : String
default_pub_name = "dbc_temp_pub_for_upgrade"

abbrev pub default_sub_name : String
default_sub_name = "dbc_temp_sub_for_upgrade"

-- the last two characters are dropped, if the first of them is `_`
drop_suffix : String → String
drop_suffix String.[] = String.[]
drop_suffix (String.◌∷◌ c s) =
    if eqb (len s) 1 && eqb (code c) b'_' then String.[] else String.◌∷◌ c (drop_suffix s)

-- utils.go: getParentRole
unfoldable pub get_parent_role : String → String
unfolding drop_suffix
get_parent_role db_user = if ltb 2 (len db_user) then drop_suffix db_user else db_user

abbrev pub group_role : String → String
group_role cloud = if cloud == "gcp" then "alloydbsuperuser" else "rds_superuser"

module _ {W : Type 0} (db : Databases W) (config : Config) where
  open db use {
    ping, user_of, is_replication_superuser, count_admin_roles, wal_level_is_logical,
    publication_exists, create_publication, drop_publication, subscription_exists,
    create_subscription, enable_subscription, disable_subscription, drop_subscription, grant_role,
    revoke_role, dump_schema, modify_dump, restore, drop_schemas, slot_active, unready_relations,
    sequences, rounded_value, set_value, revoke_writes, table_counts, table_count,
  }
  open config use {
    cloud, source_db_admin_dsn, source_db_user_dsn, target_db_admin_dsn, target_db_user_dsn,
    export_file_path,
  }

  -- initial_state
  unfoldable pub execute_initial : Exec W (Option State)
  execute_initial =
      if source_db_admin_dsn == ""
      then fail (message "source db admin dns is empty")
      else if target_db_admin_dsn == ""
      then fail (message "target db admin dns is empty")
      else if source_db_user_dsn == ""
      then fail (message "source db user dns is empty")
      else if target_db_user_dsn == ""
      then fail (message "target db admin dns is empty")
      else pure (some validate_connection_state)

  -- utils.go: isAdminUser; its `false` always comes with an error
  unfoldable pub is_admin_user : String → Exec W (Unit {0})
  is_admin_user dsn = do
    exists ← ask (is_replication_superuser dsn)
    if exists then pure tt else do
      count ← ask (count_admin_roles dsn)
      (if ltb count 2
          then fail (message "db user does not have required super_user and/or replication role")
          else pure tt)

  -- utils.go: isLogical
  unfoldable pub is_logical : String → Exec W (Unit {0})
  is_logical dsn = do
    exists ← ask (wal_level_is_logical dsn)
    if exists then pure tt else fail (message "db wal_level not set to logical")

  unfoldable pub execute_validate_connection : Exec W (Option State)
  unfolding is_admin_user is_logical
  execute_validate_connection = do
    ask (ping source_db_admin_dsn)
    ask (ping source_db_user_dsn)
    ask (ping target_db_admin_dsn)
    ask (ping target_db_user_dsn)
    attempt (is_admin_user source_db_admin_dsn)
        (λ e. fail (followed e "; Source DB Admin user lacks  required permission"))
        λ _.
          attempt (is_admin_user target_db_admin_dsn)
            (λ e. fail (followed e "; Target DB Admin user lacks  required permission"))
            λ _. do is_logical source_db_admin_dsn; pure (some create_publication_state)

  unfoldable pub execute_create_publication : Exec W (Option State)
  execute_create_publication = do
    ask (ping source_db_admin_dsn)
    exists ← ask (publication_exists source_db_admin_dsn default_pub_name)
    (if exists then pure tt else create_publication source_db_admin_dsn default_pub_name)
    pure (some copy_schema_state)

  -- a failed restore drops the schemas, and is reported unless the drop fails too
  unfoldable pub undo_restore : Err → Exec W (Unit {0})
  undo_restore e = do drop_schemas target_db_user_dsn; fail e

  unfoldable pub execute_copy_schema : Exec W (Option State)
  unfolding undo_restore get_parent_role
  execute_copy_schema = do
    ask (ping target_db_admin_dsn)
    rolename ← lift (user_of target_db_user_dsn)
    grant_role target_db_admin_dsn (group_role cloud) (get_parent_role rolename)
    file ← dump_schema source_db_admin_dsn export_file_path
    modify_dump (export_file_path <> file)
    attempt (restore target_db_user_dsn export_file_path file) undo_restore pure
    revoke_role target_db_admin_dsn (group_role cloud) (get_parent_role rolename)
    pure (some create_subscription_state)

  unfoldable pub execute_create_subscription : Exec W (Option State)
  execute_create_subscription = do
    ask (ping target_db_admin_dsn)
    exists ← ask (subscription_exists target_db_admin_dsn default_sub_name)
    (if exists
        then pure tt
        else create_subscription target_db_admin_dsn default_sub_name source_db_admin_dsn
            default_pub_name)
    pure (some enable_subscription_state)

  unfoldable pub execute_enable_subscription : Exec W (Option State)
  execute_enable_subscription = do
    ask (ping target_db_admin_dsn)
    exists ← ask (subscription_exists target_db_admin_dsn default_sub_name)
    (if exists
        then enable_subscription target_db_admin_dsn default_sub_name
        else fail (
            message
              "unable to enable subscription. subscription not found - dbc_temp_sub_for_upgrade"))
    pure (some cut_over_readiness_check_state)

  unfoldable pub execute_cut_over_readiness_check : Exec W (Option State)
  execute_cut_over_readiness_check = do
    ask (ping source_db_admin_dsn)
    ask (ping target_db_admin_dsn)
    exists ← ask (slot_active source_db_admin_dsn default_pub_name)
    if exists then pure (some retry_state) else do
      count ← ask (unready_relations target_db_admin_dsn default_sub_name)
      (if ltb 0 count then pure (some retry_state) else pure (some reset_target_sequence_state))

  -- the loop over the sequences of the source
  read_values : List String → Exec W (List (String × ℕ))
  read_values [] = pure []
  read_values (name ∷ names) = do
    value ← ask (rounded_value source_db_user_dsn name)
    rest ← read_values names
    pure ((name, value) ∷ rest)

  write_values : List (String × ℕ) → Exec W (Unit {0})
  write_values [] = pure tt
  write_values ((name, value) ∷ rest) = do
    set_value target_db_user_dsn name value
    write_values rest

  unfoldable pub execute_reset_target_sequence : Exec W (Option State)
  unfolding read_values write_values
  execute_reset_target_sequence = do
    ask (ping target_db_user_dsn)
    ask (ping source_db_user_dsn)
    names ← ask (sequences source_db_user_dsn)
    seqs ← read_values names
    write_values seqs
    pure (some reroute_target_secret_state)

  unfoldable pub execute_disable_source_access : Exec W (Option State)
  unfolding get_parent_role
  execute_disable_source_access = do
    ask (ping source_db_admin_dsn)
    username ← lift (user_of source_db_user_dsn)
    revoke_writes source_db_admin_dsn (get_parent_role username)
    pure (some validate_migration_status_state)

  -- the loop over the tables of the source; `deuce` stays true while every count is reached
  unfoldable pub compare_counts : Bool → List (String × ℕ) → Exec W Bool
  compare_counts deuce [] = pure deuce
  compare_counts deuce ((table, source_count) ∷ rest) = do
    target_count ← ask (table_count target_db_user_dsn table)
    compare_counts (if ltb target_count source_count then false else deuce) rest

  unfoldable pub execute_validate_migration_status : Exec W (Option State)
  execute_validate_migration_status = do
    ask (ping target_db_user_dsn)
    ask (ping source_db_user_dsn)
    rows ← ask (table_counts source_db_user_dsn)
    deuce ← compare_counts true rows
    pure (some (if deuce then disable_subscription_state else retry_state))

  unfoldable pub execute_disable_subscription : Exec W (Option State)
  execute_disable_subscription = do
    ask (ping target_db_admin_dsn)
    exists ← ask (subscription_exists target_db_admin_dsn default_sub_name)
    if exists then disable_subscription target_db_admin_dsn default_sub_name else pure tt
    pure (some delete_subscription_state)

  unfoldable pub execute_delete_subscription : Exec W (Option State)
  execute_delete_subscription = do
    ask (ping target_db_admin_dsn)
    exists ← ask (subscription_exists target_db_admin_dsn default_sub_name)
    if exists then drop_subscription target_db_admin_dsn default_sub_name else pure tt
    pure (some delete_publication_state)

  unfoldable pub execute_delete_publication : Exec W (Option State)
  execute_delete_publication = do
    ask (ping source_db_admin_dsn)
    exists ← ask (publication_exists source_db_admin_dsn default_pub_name)
    if exists then drop_publication source_db_admin_dsn default_pub_name else pure tt
    pure (some completed_state)

  -- State.Execute
  unfoldable pub execute : State → Exec W (Option State)
  execute initial_state = execute_initial
  execute validate_connection_state = execute_validate_connection
  execute create_publication_state = execute_create_publication
  execute copy_schema_state = execute_copy_schema
  execute create_subscription_state = execute_create_subscription
  execute enable_subscription_state = execute_enable_subscription
  execute cut_over_readiness_check_state = execute_cut_over_readiness_check
  execute reset_target_sequence_state = execute_reset_target_sequence
  execute reroute_target_secret_state = pure (some wait_to_disable_source_state)
  execute wait_to_disable_source_state = pure (some disable_source_access_state)
  execute disable_source_access_state = execute_disable_source_access
  execute validate_migration_status_state = execute_validate_migration_status
  execute disable_subscription_state = execute_disable_subscription
  execute delete_subscription_state = execute_delete_subscription
  execute delete_publication_state = execute_delete_publication
  execute completed_state = pure none
  execute retry_state = pure none
