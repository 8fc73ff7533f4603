-- ===== src/Tags/Backup.antt =====
-- The backup policy among the tags, by configureBackupPolicy in pkg/databaseclaim/databaseclaim.go.
use mathlib.Core.List.{append-nil}
use db_controller.Prelude.{
  String, Bool, true, false, ◌≡◌, refl, sym, Option, none, some, List, [], ◌∷◌, ◌++◌, get_or, arith,
  ◌==◌, if◌then◌else◌,
}
use db_controller.Api.Claim.{Tag}
use db_controller.Config.{Viper, get_default_backup_policy}
use db_controller.Tags.{configure_backup_policy, default_backup_policy_key, tags_with_backup}

-- The backup policy that a list of tags asks for: that of the first tag with the key.
unfoldable pub backup_of : List Tag → Option String
backup_of [] = none
backup_of (tag ∷ tags) =
    if tag.key == default_backup_policy_key then some tag.value else backup_of tags

abbrev pub policy_or_default : Viper → String → String
policy_or_default cfg policy = if policy == "" then get_default_backup_policy cfg else policy

added :
    (value : String) (tags : List Tag)
    → tags_with_backup tags ≡ false
    → backup_of (tags ++ (record { key = default_backup_policy_key; value = value } ∷ []))
      ≡ some value
unfolding backup_of
added value [] h = refl
added value (tag ∷ tags) h = ground (arith, added value tags)

found :
    (value : String) (tags : List Tag)
    → tags_with_backup tags ≡ true
    → backup_of tags ≡ some (get_or (backup_of tags) value)
unfolding backup_of
found value [] h = cc
found value (tag ∷ tags) h = ground (arith, found value tags)

missing : (tags : List Tag) → tags_with_backup tags ≡ false → backup_of tags ≡ none
unfolding backup_of
missing [] h = refl
missing (tag ∷ tags) h = ground (arith, missing tags)

-- What is asked for, by whether the tags given have the key.
abbrev Configured : Viper → String → List Tag → List Tag → Type 0
Configured cfg policy tags after =
    (backup_of after ≡ some (get_or (backup_of tags) (policy_or_default cfg policy)))
    × ((more : List Tag) × (after ≡ tags ++ more))

configured :
    (cfg : Viper) (policy : String) (tags : List Tag) (b : Bool)
    → tags_with_backup tags ≡ b
    → Configured cfg policy tags (configure_backup_policy cfg policy tags)
unfolding configure_backup_policy
configured cfg policy tags true e =
    rw e (found (policy_or_default cfg policy) tags e, ([], sym (append-nil tags)))
configured cfg policy tags false e =
    rw e (rw (missing tags e) (added (policy_or_default cfg policy) tags e), (_, refl))

-- The tags for a claim always ask for a backup policy, and all tags given are kept. The claim's
-- policy, or the default where it has none, is the one asked for only where the tags given do not
-- have one already: a tag with another policy is never updated.
backup_of-configure_backup_policy :
    (cfg : Viper) (policy : String) (tags : List Tag)
    → (backup_of (configure_backup_policy cfg policy tags)
        ≡ some (get_or (backup_of tags) (policy_or_default cfg policy)))
      × ((more : List Tag) × (configure_backup_policy cfg policy tags ≡ tags ++ more))
backup_of-configure_backup_policy cfg policy tags =
    configured cfg policy tags (tags_with_backup tags) refl
