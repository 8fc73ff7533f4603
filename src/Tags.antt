-- ===== src/Tags.antt =====
-- The tags of cloud resources: configureBackupPolicy and manageOperationalTagging in
-- pkg/databaseclaim/databaseclaim.go, and the functions on tags in pkg/databaseclaim/awsprovider.go.
pub mod Laws
pub mod Operational
pub mod Backup
use db_controller.Prelude.{
  ℕ, String, Bool, true, false, not, ◌&&◌, ◌||◌, Option, none, some, List, [], ◌∷◌, ◌++◌, ◌==◌,
  ◌<>◌, if◌then◌else◌,
}
use db_controller.Api.Error.{Err, Result, ok, err, panic, wrapped, ◌>>=◌}
use db_controller.Api.Claim.{Tag}
use db_controller.Config.{Viper, get_default_backup_policy, get_multi_az_enabled}
use db_controller.Exec.{Exec, pure, fail, ask, lift, attempt, ◌>>=◌ as ◌>>>=◌, ◌>>◌}
use db_controller.RequestInfo.{deref}

abbrev pub default_backup_policy_key : String
default_backup_policy_key = "Backup"

-- Whether the loop of configureBackupPolicy finds a tag with the key. It assigns to its own copy of
-- that tag, so that the tags that it then returns are those it was given.
abbrev pub tags_with_backup : List Tag → Bool
tags_with_backup [] = false
tags_with_backup (tag ∷ tags) = tag.key == default_backup_policy_key || tags_with_backup tags

-- configureBackupPolicy
unfoldable pub configure_backup_policy : Viper → String → List Tag → List Tag
configure_backup_policy cfg backup_policy tags =
    if tags_with_backup tags
    then tags
    else tags
      ++ (record {
        key = default_backup_policy_key;
        value = if backup_policy == "" then get_default_backup_policy cfg else backup_policy;
      }
          ∷ [])

abbrev pub operational_status_key : String
operational_status_key = "operational-status"

abbrev pub inactive : String
inactive = "inactive"

-- a tag of Crossplane, with its pointers
pub record AwsTag : Type 0 where
  pub key : Option String
  pub value : Option String

-- ReplaceOrAddTag
unfoldable pub replace_or_add_tag : List AwsTag → String → String → Result (List AwsTag)
replace_or_add_tag [] key value = ok (record { key = some key; value = some value } ∷ [])
replace_or_add_tag (tag ∷ tags) key value = do
  k ← deref tag.key
  (if k == key
      then (do
        v ← deref tag.value
        ok ((if v == value then tag else record tag { value = some value }) ∷ tags))
      else (do rest ← replace_or_add_tag tags key value; ok (tag ∷ rest)))

-- The loops that look for the operational tag, to the end of the list.
unfoldable pub is_marked_inactive : List AwsTag → Result Bool
is_marked_inactive [] = ok false
is_marked_inactive (tag ∷ tags) = do
  k ← deref tag.key
  here ←
      if k == operational_status_key
      then (deref tag.value >>= λ v. ok (v == inactive))
      else ok false
  rest ← is_marked_inactive tags
  ok (here || rest)

-- HasOperationalTag, which stops at the first such tag
unfoldable pub has_operational_tag : List AwsTag → Result Bool
has_operational_tag [] = ok false
has_operational_tag (tag ∷ tags) = do
  k ← deref tag.key
  here ←
      if k == operational_status_key
      then (deref tag.value >>= λ v. ok (v == inactive))
      else ok false
  if here then ok true else has_operational_tag tags

-- The Crossplane resources that are tagged.
pub data Kind : Type 0 where
  parameter_group cluster_parameter_group db_cluster db_instance : Kind

-- What the controller reads of a resource: Spec.ForProvider.Tags, Status.AtProvider.TagList of an
-- instance, and the time of its deletion.
pub record Resource : Type 0 where
  pub tags : List AwsTag
  pub provider_tags : List AwsTag
  pub deletion_timestamp : Option ℕ

-- The API server, as it is called for them: `Get` of a resource by its name, `Patch` of its tags, and
-- `Delete`.
pub record Resources (W : Type 0) : Type 0 where
  pub get_resource : Kind → String → W → Result Resource
  pub patch_tags : Kind → String → List AwsTag → Exec W (Unit {0})
  pub delete_resource : Kind → String → Exec W (Unit {0})

module _ {W : Type 0} (resources : Resources W) where
  open resources use {get_resource, patch_tags}

  abbrev mark_inactive : Kind → String → Resource → Exec W (Unit {0})
  mark_inactive kind name r =
      lift (replace_or_add_tag r.tags operational_status_key inactive) >>>= patch_tags kind name

  -- operationalTaggingForDbParamGroup, -ForDbClusterParamGroup and -ForDbCluster, by the kind
  unfoldable pub operational_tagging : Kind → String → Exec W (Unit {0})
  unfolding is_marked_inactive replace_or_add_tag
  operational_tagging kind name = ask (get_resource kind name) >>>= λ r.
      lift (is_marked_inactive r.tags) >>>= λ marked.
      if marked then pure tt else mark_inactive kind name r

  -- operationalTaggingForDbInstance: whether the tag is seen at the provider
  unfoldable pub operational_tagging_for_db_instance : String → Exec W Bool
  unfolding is_marked_inactive replace_or_add_tag
  operational_tagging_for_db_instance name = ask (get_resource db_instance name) >>>= λ r.
      lift (is_marked_inactive r.tags) >>>= λ requested.
      lift (is_marked_inactive r.provider_tags) >>>= λ seen.
      if not requested
      then (mark_inactive db_instance name r >> pure false)
      else if requested && not seen
      then pure false
      else pure true

  abbrev failing_with : {A : Type 0} → String → Exec W A → Exec W A
  failing_with text m = attempt m (λ e. fail (wrapped text e)) pure

  -- manageOperationalTagging
  unfoldable pub manage_operational_tagging : Viper → String → String → Bool → Exec W Bool
  unfolding operational_tagging operational_tagging_for_db_instance
  manage_operational_tagging cfg instance_name group_name is_aurora =
      (if is_aurora
        then (failing_with "failed to tag cluster parameter group: "
              (operational_tagging cluster_parameter_group group_name)
            >> failing_with "failed to tag cluster: "
                (operational_tagging db_cluster instance_name))
        else pure tt)
      >> failing_with "failed to tag parameter group: "
          (operational_tagging parameter_group group_name)
      >> (failing_with "failed to tag primary instance: "
            (operational_tagging_for_db_instance instance_name)
          >>>= λ verified.
              if get_multi_az_enabled cfg && is_aurora
              then (failing_with "failed to tag secondary instance: "
                    (operational_tagging_for_db_instance (instance_name <> "-2"))
                  >>>= λ second. pure (verified && second))
              else pure verified)
