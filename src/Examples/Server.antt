-- ===== src/Examples/Server.antt =====
-- A server with passwords and a cluster with one secret, and a controller that works on them.
use db_controller.Prelude.{
  String, true, false, Option, none, some, [], Map, lookup, insert, lookup-insert, refl, ◌∙◌,
  eq_refl, if◌then◌else◌,
}
use db_controller.Api.Error.{ok, err, not_found}
use db_controller.Aws.{Crossplane}
use db_controller.Cluster.{Cluster}
use db_controller.ExistingDb.HandOut.{Stores}
use db_controller.Examples.Fixtures.{databases, found, instance_tags, login_url, settings}
use db_controller.Passwords.{Passwords}
use db_controller.Reconciler.{Provider, Reconciler}
use db_controller.Secrets.{Data}
use db_controller.Secrets.Stored.{SecretStore}
use db_controller.Sql.{Sql, Statement, alter_password}
use db_controller.Tags.{Resources}
use db_controller.Users.Login.{Logins, is_right}

pub record Server : Type 0 where
  pub secret : Option Data
  pub passwords : Map String

abbrev pub empty_server : Server
empty_server = record { secret = none; passwords = [] }

-- a cluster in which nothing is found
abbrev pub idle_cluster : {W : Type 0} → Cluster W
idle_cluster = record {
  now = λ _. 100;
  get_claim = λ _ _ _. err not_found;
  update_claim = λ _ w. (ok tt, w);
  update_claim_status = λ _ w. (ok tt, w);
  get_secret = λ _ _ _. err not_found;
  secret_version = λ _ _ _. ok "7";
  create_secret = λ _ _ _ w. (ok tt, w);
  update_secret = λ _ _ _ w. (ok tt, w);
  delete_secret = λ _ _ w. (ok tt, w);
  list_role_claims = λ _ _. ok [];
  get_role_claim = λ _ _ _. err not_found;
  create_role_claim = λ _ w. (ok tt, w);
  update_role_claim = λ _ w. (ok tt, w);
  update_role_claim_status = λ _ w. (ok tt, w);
}

abbrev pub server_cluster : Cluster Server
server_cluster = record idle_cluster {
  get_secret = λ _ _ w. found w.secret;
  create_secret = λ _ _ d w. (ok tt, record w { secret = some (some d) });
  update_secret = λ _ _ d w. (ok tt, record w { secret = some d });
}

-- a server that does nothing
abbrev pub idle_sql : {W : Type 0} → Sql W
idle_sql = record {
  open_db = λ _. ok tt;
  ping = λ _ _. ok tt;
  parse_url = λ _. ok login_url;
  with_path = λ path dsn. ok dsn;
  query_escape = λ s. s;
  redacted = λ dsn. dsn;
  exec = λ _ _ w. (ok tt, w);
  test = λ _ _ _. ok false;
  roles_of = λ _ _ _. ok [];
  call_function = λ _ _ _ _. ok "";
}

abbrev pub set_password : Statement → Server → Server
set_password (alter_password user password) w = record w {
  passwords = insert user password w.passwords;
}
set_password _ w = w

abbrev pub server_sql : Sql Server
server_sql = record idle_sql { exec = λ _ s w. (ok tt, if is_right s then w else set_password s w) }

abbrev pub idle_provider : {W : Type 0} → Provider W
idle_provider = record {
  manage_cloud_host_aws = λ _ s. (ok true, s);
  manage_cloud_host_gcp = λ s. (ok true, s);
  delete_external_resources_aws = λ s. (ok tt, s);
  delete_external_resources_gcp = λ s. (ok tt, s);
  get_instance = λ _ _. ok tt;
  get_cluster = λ _ _. ok tt;
  create_metrics_deployment = λ s. (ok tt, s);
}

abbrev pub idle_resources : {W : Type 0} → Resources W
idle_resources = record {
  get_resource = λ _ _ _. ok instance_tags;
  patch_tags = λ _ _ _ w. (ok tt, w);
  delete_resource = λ _ _ w. (ok tt, w);
}

abbrev pub fixed_passwords : {W : Type 0} → Passwords W
fixed_passwords = record {
  generate = λ _ _ _ w. (ok "new secret", w);
  generate_with = λ _ _ _ _ _ w. (ok "new secret", w);
}

abbrev pub reconciler_of : {W : Type 0} → Cluster W → Sql W → Reconciler W
reconciler_of cluster sql = record {
  cluster = cluster;
  sql = sql;
  databases = databases;
  resources = idle_resources;
  passwords = fixed_passwords;
  provider = idle_provider;
  checksum = λ _. 3735928559;
  config = settings;
  class = "default";
  namespace = "system";
  metrics_enabled = false;
}

abbrev pub server : Reconciler Server
server = reconciler_of server_cluster server_sql

abbrev pub server_login : Server → String → Option String
server_login w user = lookup user w.passwords

abbrev pub server_logins : Logins server_sql
server_logins = record {
  login = server_login;
  sets = λ dsn user password w h.
      lookup-insert user user password w.passwords ∙ rw (eq_refl user) refl;
  keeps = λ dsn s w h. rw h refl;
}

abbrev pub server_store : SecretStore server_cluster
server_store = record {
  created = λ namespace name d w h. refl;
  updated = λ namespace name d w h. refl;
}

abbrev pub server_stores : Stores server_cluster server_login
server_stores = record {
  store = server_store;
  keeps_created = λ namespace name d w. refl;
  keeps_updated = λ namespace name d w. refl;
}

-- Crossplane with none of the resources
abbrev pub idle_crossplane : {W : Type 0} → Crossplane W
idle_crossplane = record {
  get_param_group = λ _ _. err not_found;
  create_param_group = λ _ w. (ok tt, w);
  get_cluster_param_group = λ _ _. err not_found;
  create_cluster_param_group = λ _ w. (ok tt, w);
  get_instance = λ _ _. err not_found;
  create_instance = λ _ w. (ok tt, w);
  is_same_instance = λ _ _. ok true;
  patch_instance = λ _ _ w. (ok tt, w);
  get_db_cluster = λ _ _. err not_found;
  create_db_cluster = λ _ w. (ok tt, w);
  is_same_db_cluster = λ _ _. ok true;
  patch_db_cluster = λ _ _ w. (ok tt, w);
  quote = λ s. s;
  sort_tags = λ tags. tags;
}
