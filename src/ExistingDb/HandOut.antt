-- ===== src/ExistingDb/HandOut.antt =====
-- What the secret of a claim holds when it is handed out, in pkg/databaseclaim: hand_out is the
-- part of reconcileUseExistingDB and of executeDbClaimRequest that writes it.
use db_controller.Prelude.{
  String, Bool, true, false, not, Option, none, some, ◌≡◌, refl, ap, sym, subst, ◌∙◌, ◌==◌, inl,
  inr, Bool-cases, [], Map, is_some, ◌&&◌, insert, lookup-insert, if◌then◌else◌,
}
use db_controller.Api.Claim.{DatabaseClaim, dsn_key, dsn_uri_key, replica_dsn_uri_key}
use db_controller.Api.Connection.{ConnectionInfo}
use db_controller.Api.Error.{Result, ok, err, panic, is_not_found}
use db_controller.Cluster.{Cluster, Context}
use db_controller.Config.{get_cloud}
use db_controller.Exec.{continue, pure}
use db_controller.Exec.Frame.{Keeps}
use db_controller.ExistingDb.{hand_out, hand_out_to}
use db_controller.Reconciler.{Reconciler}
use db_controller.Secrets.{
  Data, data_at, entries, secret_data, create_claim_secret, update_claim_secret, write_secret,
  create_or_update_secret, is_known_type, use_existing_source,
}
use db_controller.Secrets.Stored.{SecretStore}
use db_controller.Users.Login.{HandsOut, Logins}

-- A secret that is written is read back, and changes no password of a database.
pub record Stores {W : Type 0} (cluster : Cluster W) (login : W → String → Option String)
    : Type 0 where
  pub store : SecretStore cluster
  pub keeps_created :
      (namespace name : String) (d : Data)
      → Keeps login (cluster.create_secret namespace name (entries d))
  pub keeps_updated :
      (namespace name : String) (d : Data) → Keeps login (cluster.update_secret namespace name d)

-- The data of a secret names the user and the password of a connection.
abbrev Names : ConnectionInfo → Data → Type 0
Names c d = (data_at "username" d ≡ c.username) × (data_at "password" d ≡ c.password)

abbrev value : Result Data → Data
value (ok d) = d
value _ = none

abbrev full : String → String → String → ConnectionInfo → Map String → Map String
full dsn uri replica_uri c m = insert "sslmode" c.ssl_mode (
    insert "password" c.password (
      insert "username" c.username (
        insert "database" c.database_name (
          insert "port" c.port (
            insert "hostname" c.host (
              insert replica_dsn_uri_key replica_uri
                (insert dsn_uri_key uri (insert dsn_key dsn m))))))))

full-Names :
    (dsn uri replica_uri : String) (c : ConnectionInfo) (m : Map String)
    → Names c (some (full dsn uri replica_uri c m))
full-Names dsn uri replica_uri c m = (
  rw (lookup-insert "sslmode" "username")
      (rw (lookup-insert "password" "username") (rw (lookup-insert "username" "username") refl)),
  rw (lookup-insert "sslmode" "password") (rw (lookup-insert "password" "password") refl),
)

secret_data-full :
    (claim : DatabaseClaim) (dsn uri replica_uri : String) (c : ConnectionInfo) (m : Map String)
    → (claim.spec.dsn_name == dsn_key) ≡ true
    → secret_data claim dsn uri replica_uri c (some m) ≡ ok (some (full dsn uri replica_uri c m))
unfolding secret_data
secret_data-full claim dsn uri replica_uri c m n = elim (Bool-cases (claim.spec.dsn_name == "")) [
  | inl p ↦ rw p refl
  | inr p ↦ rw p (rw n refl)
]

secret_data-Names :
    (claim : DatabaseClaim) (dsn uri replica_uri : String) (c : ConnectionInfo) (old d : Data)
    → (claim.spec.dsn_name == dsn_key) ≡ true
    → secret_data claim dsn uri replica_uri c old ≡ ok d
    → Names c d
unfolding secret_data
secret_data-Names claim dsn uri replica_uri c none d n h = cc
secret_data-Names claim dsn uri replica_uri c (some m) d n h =
    subst (Names c) (ap value (sym (secret_data-full claim dsn uri replica_uri c m n) ∙ h))
      (full-Names dsn uri replica_uri c m)

module _ {W : Type 0} (r : Reconciler W) (law : Logins r.sql)
    (stores : Stores r.cluster law.login) where
  open r use {cluster, sql, config}
  open law use {login}

  -- The secret of a claim in a world, as far as it is of a connection, which logs in.
  abbrev pub Readable : DatabaseClaim → W → Type 0
  Readable claim w =
      (d : Data) × (cluster.get_secret claim.namespace claim.spec.secret_name w ≡ ok d)
      × (login w (data_at "username" d) ≡ some (data_at "password" d))

  -- what is written is read
  readable :
      (claim : DatabaseClaim) (c : ConnectionInfo) (d : Data) (w w' : W)
      → Names c d
      → login w c.username ≡ some c.password
      → login w' ≡ login w
      → cluster.get_secret claim.namespace claim.spec.secret_name w' ≡ ok d
      → Readable claim w'
  readable claim c d w w' (u, p) l k g =
      (d, g, ap (λ f. f (data_at "username" d)) k ∙ ap (login w) u ∙ l ∙ ap some (sym p))

  module _ (claim : DatabaseClaim) (dsn uri replica_uri : String) (c : ConnectionInfo) (w : W)
      (n : (claim.spec.dsn_name == dsn_key) ≡ true) (l : login w c.username ≡ some c.password) where
    created-Readable :
        (made : Result Data)
        → secret_data claim dsn uri replica_uri c (some []) ≡ made
        → (continue made w
            (λ d. cluster.create_secret claim.namespace claim.spec.secret_name (entries d))).0
          ≡ ok tt
        → Readable claim
            (continue made w
              (λ d. cluster.create_secret claim.namespace claim.spec.secret_name (entries d))).1
    created-Readable (ok none) e h =
        let x = sym (secret_data-full claim dsn uri replica_uri c [] n) ∙ e in cc
    created-Readable (ok (some m)) e h =
        readable claim c (some m) w _
          (secret_data-Names claim dsn uri replica_uri c (some []) (some m) n e) l
          (stores.keeps_created claim.namespace claim.spec.secret_name (some m) w)
          (stores.store.created claim.namespace claim.spec.secret_name (some m) w h)
    created-Readable (err x) e h = cc
    created-Readable panic e h = cc

    updated-Readable :
        (old : Data) (made : Result Data)
        → secret_data claim dsn uri replica_uri c old ≡ made
        → (continue made w (cluster.update_secret claim.namespace claim.spec.secret_name)).0 ≡ ok tt
        → Readable claim
            (continue made w (cluster.update_secret claim.namespace claim.spec.secret_name)).1
    updated-Readable old (ok d) e h =
        readable claim c d w _ (secret_data-Names claim dsn uri replica_uri c old d n e) l
          (stores.keeps_updated claim.namespace claim.spec.secret_name d w)
          (stores.store.updated claim.namespace claim.spec.secret_name d w h)
    updated-Readable old (err x) e h = cc
    updated-Readable old panic e h = cc

    write-Readable :
        (found : Result Data)
        → (write_secret cluster found claim dsn uri replica_uri c w).0 ≡ ok tt
        → Readable claim (write_secret cluster found claim dsn uri replica_uri c w).1
    unfolding write_secret create_claim_secret update_claim_secret
    write-Readable (ok d) h =
        elim (Bool-cases (
          not (is_some claim.status.active_db.connection_info)
          && not (use_existing_source claim))) [
            | inl p ↦ (let x = rw p at h in cc)
            | inr p ↦ rw p (updated-Readable d _ refl (rw p at h))
          ]
    write-Readable (err e) h = elim (Bool-cases (is_not_found e)) [
      | inl p ↦ rw p (created-Readable _ refl (rw p at h))
      | inr p ↦ rw p (updated-Readable none _ refl (rw p at h))
    ]
    write-Readable panic h = cc

  known-Readable :
      (claim : DatabaseClaim) (c : ConnectionInfo) (cloud : String) (w : W)
      → (claim.spec.dsn_name == dsn_key) ≡ true
      → login w c.username ≡ some c.password
      → (create_or_update_secret cluster sql.query_escape claim c cloud w).0 ≡ ok tt
      → Readable claim (create_or_update_secret cluster sql.query_escape claim c cloud w).1
  unfolding create_or_update_secret
  known-Readable claim c cloud w n l h = elim (Bool-cases (is_known_type claim.spec.db_type)) [
    | inl p ↦ rw p (
        write-Readable claim _ _ _ c w n l
          (cluster.get_secret claim.namespace claim.spec.secret_name w) (rw p at h))
    | inr p ↦ (let x = rw p at h in cc)
  ]

  -- When the credentials of a user who logs in with them are handed out without an error, the
  -- secret of the claim is read back, and its user logs in with its password. The conditions are
  -- that a password was set and that the claim names the default key for its DSN.
  pub hand_out-Readable :
      (s : Context W)
      → HandsOut r law s
      → (s.info.temp_secret == "") ≡ false
      → (s.claim.spec.dsn_name == dsn_key) ≡ true
      → (hand_out r s).0 ≡ ok tt
      → Readable s.claim (hand_out r s).1.world
  unfolding hand_out hand_out_to
  hand_out-Readable s (c, e, l) t n h =
      let opened =
        (ap
          (λ (b : Bool).
            (if b then pure tt else hand_out_to r s.claim.status.new_db.connection_info) s)
          t)
        ∙ ap (λ conn. hand_out_to r conn s) e in
      subst (λ done. Readable s.claim done.1.world) (sym opened)
        (known-Readable s.claim (record c { password = s.info.temp_secret }) (get_cloud config)
          s.world n l (sym (ap (λ done. done.0) opened) ∙ h))
