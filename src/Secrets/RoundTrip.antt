-- ===== src/Secrets/RoundTrip.antt =====
-- What pkg/databaseclaim/secrets.go writes into a secret is found there again, and what it refuses.
use db_controller.Prelude.{
  String, true, false, ◌≡◌, refl, sym, ◌∙◌, ap, none, some, Map, insert, is_some, lookup-insert,
  arith, ◌==◌, eq_refl, if◌then◌else◌,
}
use db_controller.Api.Error.{Err, Result, ok, err, panic, is_not_found}
use db_controller.Api.Connection.{ConnectionInfo}
use db_controller.Api.Claim.{DatabaseClaim}
use db_controller.Cluster.{Cluster}
use db_controller.Exec.{continue}
use db_controller.Secrets.{
  Data, data_at, put, temp_secret_name, temp_source_dsn, temp_target_password, get_temp_secret,
  set_in_temp_secret, get_from_temp_secret, set_source_dsn_in_temp_secret,
  set_target_password_in_temp_secret, get_source_dsn_from_temp_secret, use_existing_source,
  secret_exists, is_known_type, get_target_password_from_temp_secret, create_or_update_secret,
  write_secret, update_claim_secret, secret_data,
}

data_at-insert :
    (key other value : String) (m : Map String)
    → data_at other (some (insert key value m))
      ≡ (if key == other then value else data_at other (some m))
data_at-insert key other value m = ground (arith, lookup-insert key other value m)

module _ {W : Type 0} (cluster : Cluster W) where
  open cluster use {get_secret, update_secret}

  -- An update that succeeds is read back: what the API server promises.
  abbrev pub ReadsBack : Type 0
  ReadsBack =
      (namespace name : String) (d : Data) (w : W)
      → (update_secret namespace name d w).0 ≡ ok tt
      → get_secret namespace name (update_secret namespace name d w).1 ≡ ok d

  put_then :
      (reads : ReadsBack) (claim : DatabaseClaim) (key value : String) (d : Data) (w : W)
      → let r =
          continue (put key value d) w (update_secret claim.namespace (temp_secret_name claim)) in
        r.0 ≡ ok tt
        → (m : Map String) × (get_secret claim.namespace (temp_secret_name claim) r.1
            ≡ ok (some (insert key value m)))
          × (d ≡ some m)
  put_then reads claim key value none w h = cc
  put_then reads claim key value (some m) w h = (m, reads _ _ _ w h, refl)

  set_then :
      (reads : ReadsBack) (claim : DatabaseClaim) (key value : String) (r : Result Data) (w : W)
      → let s = continue r w (λ d v.
        continue (put key value d) v (update_secret claim.namespace (temp_secret_name claim))) in
        s.0 ≡ ok tt
        → (m : Map String) × (get_secret claim.namespace (temp_secret_name claim) s.1
            ≡ ok (some (insert key value m)))
          × (r ≡ ok (some m))
  set_then reads claim key value (ok d) w h =
      let (m, found, e) = put_then reads claim key value d w h in (m, found, ap ok e)
  set_then reads claim key value (err e) w h = cc
  set_then reads claim key value panic w h = cc

  kept :
      (other key value : String) (m : Map String) (d : Data)
      → (key == other) ≡ false
      → ok d ≡ ok (some m)
      → data_at other (some (insert key value m)) ≡ data_at other d
  kept other key value m d ne e =
      let same : d ≡ some m = cc in rw same (data_at-insert key other value m ∙ (rw ne refl))

  -- A value set in the temporary secret is what is got from it, and the other values stay.
  set_in-get_from :
      (reads : ReadsBack) (claim : DatabaseClaim) (key value : String) (w : W)
      → (claim.namespace == "") ≡ false
      → (set_in_temp_secret cluster key value claim w).0 ≡ ok tt
      → let w' = (set_in_temp_secret cluster key value claim w).1 in
        (get_from_temp_secret cluster key claim w' ≡ ok value)
        × ((other : String) (d : Data)
            → (key == other) ≡ false
            → (get_temp_secret cluster claim w).0 ≡ ok d
            → get_from_temp_secret cluster other claim w' ≡ ok (data_at other d))
  set_in-get_from reads claim key value w n h =
      let (m, found, e) = set_then reads claim key value _ _ h in
      (
        rw n (rw found (ap ok (data_at-insert key key value m ∙ (rw (eq_refl key) refl)))),
        λ other d ne g. rw n (rw found (ap ok (kept other key value m d ne (sym g ∙ e)))),
      )

  found_again :
      (w : W) (m : Map String) (claim : DatabaseClaim)
      → get_secret claim.namespace (temp_secret_name claim) w ≡ ok (some m)
      → (get_temp_secret cluster claim w).0 ≡ ok (some m)
  unfolding get_temp_secret
  found_again w m claim h = rw h refl

  -- The password of the target and the DSN of the source, hidden one after the other in a claim's
  -- temporary secret, are both found in it, where the claim has a namespace and both calls succeed.
  pub temp_secret_round_trip :
      (reads : ReadsBack) (claim : DatabaseClaim) (password dsn : String) (w : W)
      → (claim.namespace == "") ≡ false
      → let first = set_target_password_in_temp_secret cluster password claim w in
        let second = set_source_dsn_in_temp_secret cluster dsn claim first.1 in
        first.0 ≡ ok tt
        → second.0 ≡ ok tt
        → (get_target_password_from_temp_secret cluster claim second.1 ≡ ok password)
          × (get_source_dsn_from_temp_secret cluster claim second.1 ≡ ok dsn)
  unfolding set_source_dsn_in_temp_secret set_target_password_in_temp_secret
      get_source_dsn_from_temp_secret get_target_password_from_temp_secret
  temp_secret_round_trip reads claim password dsn w n h k =
      let w1 = (set_in_temp_secret cluster temp_target_password password claim w).1 in
      let (m, found, _) = set_then reads claim temp_target_password password _ _ h in
      let after = some (insert temp_target_password password m) in
      let (own, others) = set_in-get_from reads claim temp_source_dsn dsn w1 n k in
      (
        others temp_target_password after refl (found_again w1 _ claim found)
            ∙ ap ok (data_at-insert temp_target_password temp_target_password password m),
        own,
      )

  -- A secret that exists while its claim, of a known type, neither has an active connection nor uses
  -- an existing source is not overwritten: the call fails and the world stays as it is.
  existing_secret_refused :
      (query_escape : String → String) (claim : DatabaseClaim) (c : ConnectionInfo) (cloud : String)
      (w : W) (d : Data)
      → is_known_type claim.spec.db_type ≡ true
      → get_secret claim.namespace claim.spec.secret_name w ≡ ok d
      → is_some claim.status.active_db.connection_info ≡ false
      → use_existing_source claim ≡ false
      → create_or_update_secret cluster query_escape claim c cloud w
        ≡ (err (secret_exists claim), w)
  unfolding create_or_update_secret write_secret
  existing_secret_refused query_escape claim c cloud w d k g a u = rw k (rw g (rw a (rw u refl)))

  -- When the secret of a claim of a known type cannot be read, for a reason other than NotFound,
  -- the code goes on to update it and writes to a nil map.
  pub unread_secret_panics :
      (query_escape : String → String) (claim : DatabaseClaim) (c : ConnectionInfo) (cloud : String)
      (w : W) (e : Err)
      → is_known_type claim.spec.db_type ≡ true
      → get_secret claim.namespace claim.spec.secret_name w ≡ err e
      → is_not_found e ≡ false
      → create_or_update_secret cluster query_escape claim c cloud w ≡ (panic, w)
  unfolding create_or_update_secret write_secret update_claim_secret secret_data
  unread_secret_panics query_escape claim c cloud w e k g f = rw k (rw g (rw f refl))
