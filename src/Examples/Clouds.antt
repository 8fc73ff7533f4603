-- ===== src/Examples/Clouds.antt =====
-- A cluster and an instance of AlloyDB that are ready, and the theorem about the secret at these.
use db_controller.Prelude.{true, some, List, [], ◌∷◌, ◌≡◌, refl}
use db_controller.Api.Error.{ok, err, not_found}
use db_controller.Aws.{ResourceCondition}
use db_controller.Cluster.{Context}
use db_controller.Examples.Fixtures.{claim}
use db_controller.Examples.Server.{Server, server, server_store}
use db_controller.Gcp.{Alloy}
use db_controller.Gcp.Connected.{Connects, manage_cloud_host_gcp-Connected}
use db_controller.Gcp.Hosts.{manage_cloud_host_gcp, new_alloy_cluster, new_alloy_instance}
use db_controller.HostName.{get_dynamic_host_name}
use db_controller.Examples.Pure.{info}

abbrev empty_alloy : Alloy Server
empty_alloy = record {
  get_cluster = λ _ _. err not_found;
  create_cluster = λ _ w. (ok tt, w);
  patch_cluster = λ _ _ w. (ok tt, w);
  delete_cluster = λ _ w. (ok tt, w);
  get_instance = λ _ _. err not_found;
  create_instance = λ _ w. (ok tt, w);
  delete_instance = λ _ w. (ok tt, w);
  get_network_record = λ _ _. err not_found;
  create_network_record = λ _ w. (ok tt, w);
  num_backups_to_retain = "7";
  quote = λ s. s;
}

abbrev said_ready : List ResourceCondition
said_ready = record { type = "Ready"; status = "True"; reason = "Available"; message = "" } ∷ []

abbrev alloy : Alloy Server
alloy = record empty_alloy {
  get_cluster = λ name _. ok (record (new_alloy_cluster server empty_alloy name "system" info) {
    conditions = said_ready;
  });
  get_instance = λ name _. ok (record (new_alloy_instance server empty_alloy name info) {
    conditions = said_ready;
    psc_status =
        some (record {
          psc_dns_name = some "db.alloydb.goog.";
          service_attachment_link = some "link";
        });
  });
}

abbrev on_gcp : Context Server
on_gcp = record {
  claim = claim;
  info = info;
  world = record {
    secret = some (some (("attribute.initial_user.0.password", "initial") ∷ []));
    passwords = [];
  };
}

ready_on_gcp : (manage_cloud_host_gcp server alloy on_gcp).0 ≡ ok true
unfolding manage_cloud_host_gcp
ready_on_gcp = refl

manage_cloud_host_gcp-Connected_example :
    Connects server alloy server_store
      (get_dynamic_host_name server.checksum server.config on_gcp.info.host_params on_gcp.claim)
      on_gcp
      (manage_cloud_host_gcp server alloy on_gcp).1
manage_cloud_host_gcp-Connected_example =
    manage_cloud_host_gcp-Connected server alloy server_store on_gcp ready_on_gcp
