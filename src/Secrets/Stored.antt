-- ===== src/Secrets/Stored.antt =====
-- What the API server of pkg/databaseclaim/secrets.go is relied on for: a secret that is created or
-- updated without an error is read back.
use db_controller.Prelude.{String, some, ◌≡◌}
use db_controller.Api.Error.{ok}
use db_controller.Cluster.{Cluster}
use db_controller.Secrets.{Data, entries}

pub record SecretStore {W : Type 0} (cluster : Cluster W) : Type 0 where
  pub created :
      (namespace name : String) (d : Data) (w : W)
      → (cluster.create_secret namespace name (entries d) w).0 ≡ ok tt
      → cluster.get_secret namespace name (cluster.create_secret namespace name (entries d) w).1
        ≡ ok (some (entries d))
  pub updated :
      (namespace name : String) (d : Data) (w : W)
      → (cluster.update_secret namespace name d w).0 ≡ ok tt
      → cluster.get_secret namespace name (cluster.update_secret namespace name d w).1 ≡ ok d
