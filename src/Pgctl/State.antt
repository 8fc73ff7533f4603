-- ===== src/Pgctl/State.antt =====
-- pkg/pgctl/stateEnum.go, and the choice of a state in pkg/pgctl/pgctl.go. `id` and `state_string`
-- are the methods of the seventeen state types, which `State` enumerates.
use db_controller.Prelude.{ℕ, String, Option, none, some, [], ◌∷◌, Map, lookup}
use db_controller.Api.Error.{Result, ok, err, message, ◌>>=◌}

pub data StateEnum : Type 0 where
  initial validate_connection create_publication copy_schema create_subscription : StateEnum
  enable_subscription cut_over_readiness_check reset_target_sequence : StateEnum
  reroute_target_secret wait_to_disable_source disable_source_access : StateEnum
  migration_in_progress validate_migration_status disable_subscription : StateEnum
  delete_subscription delete_publication completed retry : StateEnum

-- StateEnum.String
unfoldable pub enum_string : StateEnum → String
enum_string initial = "initial"
enum_string validate_connection = "validate_connection"
enum_string create_publication = "create_publication"
enum_string copy_schema = "copy_schema"
enum_string create_subscription = "create_subscription"
enum_string enable_subscription = "enable_subscription"
enum_string cut_over_readiness_check = "cut_over_readiness_check"
enum_string reset_target_sequence = "reset_target_sequence"
enum_string reroute_target_secret = "reroute_target_secret"
enum_string wait_to_disable_source = "wait_to_disable_source"
enum_string disable_source_access = "disable_source_access"
enum_string migration_in_progress = "migration_in_progress"
enum_string validate_migration_status = "validate_migration_status"
enum_string disable_subscription = "disable_subscription"
enum_string delete_subscription = "delete_subscription"
enum_string delete_publication = "delete_publication"
enum_string completed = "completed"
enum_string retry = "retry"

-- the value that `iota` gives
unfoldable pub number : StateEnum → ℕ
number initial = 0
number validate_connection = 1
number create_publication = 2
number copy_schema = 3
number create_subscription = 4
number enable_subscription = 5
number cut_over_readiness_check = 6
number reset_target_sequence = 7
number reroute_target_secret = 8
number wait_to_disable_source = 9
number disable_source_access = 10
number migration_in_progress = 11
number validate_migration_status = 12
number disable_subscription = 13
number delete_subscription = 14
number delete_publication = 15
number completed = 16
number retry = 17

-- the map that `init` fills
unfoldable pub state_map : Map StateEnum
unfolding enum_string
state_map =
    ("", initial)
    ∷ (enum_string initial, initial)
    ∷ (enum_string validate_connection, validate_connection)
    ∷ (enum_string create_publication, create_publication)
    ∷ (enum_string copy_schema, copy_schema)
    ∷ (enum_string create_subscription, create_subscription)
    ∷ (enum_string enable_subscription, enable_subscription)
    ∷ (enum_string cut_over_readiness_check, cut_over_readiness_check)
    ∷ (enum_string reset_target_sequence, reset_target_sequence)
    ∷ (enum_string reroute_target_secret, reroute_target_secret)
    ∷ (enum_string disable_source_access, disable_source_access)
    ∷ (enum_string migration_in_progress, migration_in_progress)
    ∷ (enum_string validate_migration_status, validate_migration_status)
    ∷ (enum_string wait_to_disable_source, wait_to_disable_source)
    ∷ (enum_string disable_subscription, disable_subscription)
    ∷ (enum_string delete_subscription, delete_subscription)
    ∷ (enum_string delete_publication, delete_publication)
    ∷ (enum_string completed, completed)
    ∷ (enum_string retry, retry)
    ∷ []

abbrev pub or_unknown : Option StateEnum → Result StateEnum
or_unknown none = err (message "unknown state")
or_unknown (some s) = ok s

unfoldable pub get_state_enum : String → Result StateEnum
unfolding state_map lookup
get_state_enum name = or_unknown (lookup name state_map)

pub data State : Type 0 where
  initial_state validate_connection_state create_publication_state copy_schema_state : State
  create_subscription_state enable_subscription_state cut_over_readiness_check_state : State
  reset_target_sequence_state reroute_target_secret_state wait_to_disable_source_state : State
  disable_source_access_state validate_migration_status_state disable_subscription_state : State
  delete_subscription_state delete_publication_state completed_state retry_state : State

-- State.Id
unfoldable pub id : State → StateEnum
id initial_state = initial
id validate_connection_state = validate_connection
id create_publication_state = create_publication
id copy_schema_state = copy_schema
id create_subscription_state = create_subscription
id enable_subscription_state = enable_subscription
id cut_over_readiness_check_state = cut_over_readiness_check
id reset_target_sequence_state = reset_target_sequence
id reroute_target_secret_state = reroute_target_secret
id wait_to_disable_source_state = wait_to_disable_source
id disable_source_access_state = disable_source_access
id validate_migration_status_state = validate_migration_status
id disable_subscription_state = disable_subscription
id delete_subscription_state = delete_subscription
id delete_publication_state = delete_publication
id completed_state = completed
id retry_state = retry

-- State.String
unfoldable pub state_string : State → String
unfolding id enum_string
state_string s = enum_string (id s)

-- The `switch` of GetReplicatorState
unfoldable pub state_of : StateEnum → Result State
state_of initial = ok initial_state
state_of validate_connection = ok validate_connection_state
state_of create_publication = ok create_publication_state
state_of copy_schema = ok copy_schema_state
state_of create_subscription = ok create_subscription_state
state_of enable_subscription = ok enable_subscription_state
state_of cut_over_readiness_check = ok cut_over_readiness_check_state
state_of reset_target_sequence = ok reset_target_sequence_state
state_of reroute_target_secret = ok reroute_target_secret_state
state_of wait_to_disable_source = ok wait_to_disable_source_state
state_of migration_in_progress = ok initial_state
state_of validate_migration_status = ok validate_migration_status_state
state_of disable_source_access = ok disable_source_access_state
state_of disable_subscription = ok disable_subscription_state
state_of delete_subscription = ok delete_subscription_state
state_of delete_publication = ok delete_publication_state
state_of completed = ok completed_state
state_of retry = err (message "unknown current state")

unfoldable pub get_replicator_state : String → Result State
unfolding get_state_enum state_of
get_replicator_state name = do state ← get_state_enum name; state_of state
