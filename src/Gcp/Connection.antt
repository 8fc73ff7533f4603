-- ===== src/Gcp/Connection.antt =====
-- manageNetworkRecord and createSecretWithConnInfo of pkg/databaseclaim/gcpprovider.go.
use db_controller.Prelude.{String, none, some, Map, insert, ◌<>◌, if◌then◌else◌}
use db_controller.Api.Error.{Result, ok, err, panic, is_not_found, ◌>>=◌ as ◌>>>=◌}
use db_controller.Aws.{get_service_namespace}
use db_controller.Config.{get_region, get_network, get_sub_network}
use db_controller.Exec.{Exec, pure, fail, crash, ask, lift, ◌>>=◌}
use db_controller.Gcp.{Alloy, AlloyInstance, NetworkRecord, PscStatus}
use db_controller.Reconciler.{Reconciler}
use db_controller.RequestInfo.{deref}
use db_controller.Secrets.{Data, data_at}

-- the keys that are written into the data of the secret, which panics where the map is nil
unfoldable pub conn_info : String → String → Data → Result (Map String)
conn_info username endpoint none = panic
conn_info username endpoint (some m) = ok (
    insert "port" "5432" (
      insert "endpoint" endpoint (
        insert "password" (data_at "attribute.initial_user.0.password" (some m))
          (insert "username" username m))))

-- `*instance.Status.AtProvider.PscInstanceConfig.PscDNSName`
unfoldable pub endpoint_of : AlloyInstance → Result String
endpoint_of i = deref i.psc_status >>>= λ psc. deref psc.psc_dns_name

-- What follows the Get of the record: one that is not found is created.
abbrev pub create_missing :
    {W : Type 0} → Exec W (Unit {0}) → Result NetworkRecord → Exec W (Unit {0})
create_missing create (ok record_there) = pure tt
create_missing create (err e) = if is_not_found e then create else fail e
create_missing create panic = crash

module _ {W : Type 0} (r : Reconciler W) (x : Alloy W) where
  open r use {cluster, config}
  open x use {get_instance, get_network_record, create_network_record}

  -- the creation of the record, from what the instance says of itself
  unfoldable pub create_record : String → PscStatus → Exec W (Unit {0})
  unfolding get_service_namespace
  create_record name psc = lift (get_service_namespace r) >>= λ namespace.
      lift (deref psc.psc_dns_name) >>= λ dns_name.
      lift (deref psc.service_attachment_link) >>= λ link. create_network_record (record {
        name = name;
        namespace = namespace;
        psc_dns_name = dns_name;
        service_attachment_link = link;
        region = get_region config;
        subnetwork = get_sub_network config;
        network = get_network config;
      })

  -- manageNetworkRecord
  unfoldable pub manage_network_record : String → Exec W (Unit {0})
  unfolding create_record
  manage_network_record host = ask (get_instance host) >>= λ i.
      lift (deref i.psc_status) >>= λ psc w.
      create_missing (create_record (host <> "-psc-network") psc)
        (get_network_record (host <> "-psc-network") w) w

  -- createSecretWithConnInfo, for the master's name
  unfoldable pub create_secret_with_conn_info : String → String → Exec W (Unit {0})
  unfolding get_service_namespace conn_info endpoint_of
  create_secret_with_conn_info username host = ask (get_instance host) >>= λ i.
      lift (get_service_namespace r) >>= λ namespace.
      ask (cluster.get_secret namespace host) >>= λ d. lift (endpoint_of i) >>= λ endpoint.
      lift (conn_info username endpoint d) >>= λ m. cluster.update_secret namespace host (some m)
