-- ===== src/Tags/Operational.antt =====
-- What manageOperationalTagging of pkg/databaseclaim/databaseclaim.go reaches.
use db_controller.Prelude.{String, Bool, true, false, ◌≡◌, refl, sym, ◌∙◌, ap, List, All, arith}
use db_controller.Api.Error.{ok}
use db_controller.Tags.{
  AwsTag, Kind, db_instance, Resource, Resources, operational_status_key, inactive,
  replace_or_add_tag, is_marked_inactive, operational_tagging, operational_tagging_for_db_instance,
}
use db_controller.Tags.Laws.{
  IsFilled, replaced-is_marked_inactive, is_marked_inactive-has_operational_tag,
}

module _ {W : Type 0} (resources : Resources W) where
  open resources use {get_resource, patch_tags}

  -- Tags that are patched are read back: what the API server promises.
  abbrev pub ReadsBack : Type 0
  ReadsBack =
      (kind : Kind) (name : String) (tags : List AwsTag) (w : W)
      → (patch_tags kind name tags w).0 ≡ ok tt
      → (r : Resource) × (r.tags ≡ tags)
        × (get_resource kind name (patch_tags kind name tags w).1 ≡ ok r)

  marked_settles :
      (kind : Kind) (name : String) (r : Resource) (w : W)
      → get_resource kind name w ≡ ok r
      → is_marked_inactive r.tags ≡ ok true
      → operational_tagging resources kind name w ≡ (ok tt, w)
  unfolding operational_tagging
  marked_settles kind name r w e m = rw e (rw m refl)

  tagging_patches :
      (kind : Kind) (name : String) (r : Resource) (after : List AwsTag) (w : W)
      → get_resource kind name w ≡ ok r
      → is_marked_inactive r.tags ≡ ok false
      → replace_or_add_tag r.tags operational_status_key inactive ≡ ok after
      → operational_tagging resources kind name w ≡ patch_tags kind name after w
  unfolding operational_tagging
  tagging_patches kind name r after w e m p = ground (arith, e, m, p)

  settles :
      (reads : ReadsBack) (kind : Kind) (name : String) (r : Resource) (after : List AwsTag) (w : W)
      (b : Bool)
      → is_marked_inactive r.tags ≡ ok b
      → get_resource kind name w ≡ ok r
      → replace_or_add_tag r.tags operational_status_key inactive ≡ ok after
      → is_marked_inactive after ≡ ok true
      → (operational_tagging resources kind name w).0 ≡ ok tt
      → let w' = (operational_tagging resources kind name w).1 in
        operational_tagging resources kind name w' ≡ (ok tt, w')
  settles reads kind name r after w true m e p q h =
      let same = marked_settles kind name r w e m in rw same same
  settles reads kind name r after w false m e p q h =
      let patched = tagging_patches kind name r after w e m p in
      let (new, tagged, found) = reads kind name after w (ap (λ x. x.0) (sym patched) ∙ h) in
      rw patched (marked_settles kind name new _ found (ap is_marked_inactive tagged ∙ q))

  -- The tagging of a resource whose tags have no nil pointer, once it succeeds, has nothing left to
  -- do: a second call succeeds and leaves the world as it is.
  pub operational_tagging-settles :
      (reads : ReadsBack) (kind : Kind) (name : String) (r : Resource) (w : W)
      → get_resource kind name w ≡ ok r
      → All IsFilled r.tags
      → (operational_tagging resources kind name w).0 ≡ ok tt
      → let w' = (operational_tagging resources kind name w).1 in
        operational_tagging resources kind name w' ≡ (ok tt, w')
  operational_tagging-settles reads kind name r w e all h =
      let (after, done, marked) = replaced-is_marked_inactive r.tags all in
      let (b, m, _) = is_marked_inactive-has_operational_tag r.tags all in
      settles reads kind name r after w b m e done marked h

  -- The tagging of an instance reports that it is verified only when the tag is in the request and
  -- seen at the provider, and then it has changed nothing.
  pub verified_seen :
      (name : String) (r : Resource) (w : W)
      → get_resource db_instance name w ≡ ok r
      → (operational_tagging_for_db_instance resources name w).0 ≡ ok true
      → (is_marked_inactive r.tags ≡ ok true)
        × (is_marked_inactive r.provider_tags ≡ ok true)
        × ((operational_tagging_for_db_instance resources name w).1 ≡ w)
  unfolding operational_tagging_for_db_instance
  verified_seen name r w e h = ground (arith, e, h)
