-- ===== src/Tags/Laws.antt =====
-- The lists of tags of pkg/databaseclaim: what a key's value is afterwards.
use db_controller.Prelude.{
  String, Bool, true, false, ◌&&◌, ◌||◌, ◌≡◌, refl, Option, none, some, List, [], ◌∷◌, All, arith,
  ◌==◌, eq_iff, eq_refl, if◌then◌else◌, Bool-cases, inl, inr,
}
use db_controller.Api.Error.{ok}
use db_controller.Tags.{
  AwsTag, replace_or_add_tag, is_marked_inactive, has_operational_tag, operational_status_key,
  inactive,
}

-- No pointer of a tag is nil.
abbrev pub IsFilled : AwsTag → Type 0
IsFilled tag = (k : String) × (v : String) × (tag.key ≡ some k) × (tag.value ≡ some v)

abbrev is_key : String → Option String → Bool
is_key key none = false
is_key key (some k) = k == key

-- The value that a list of tags has for a key: that of its first tag with the key.
unfoldable pub value_of : String → List AwsTag → Option String
value_of key [] = none
value_of key (tag ∷ tags) = if is_key key tag.key then tag.value else value_of key tags

abbrev with_value : String → String → AwsTag → AwsTag
with_value v value tag = if v == value then tag else record tag { value = some value }

with_value-IsFilled :
    (tag : AwsTag) (v value : String) → IsFilled tag → IsFilled (with_value v value tag)
with_value-IsFilled tag v value (k, w, e, f) = elim (Bool-cases (v == value)) [
  | inl p ↦ rw p (k, w, e, f)
  | inr p ↦ rw p (k, value, e, refl)
]

-- What replacing or adding a tag comes to.
abbrev pub Replaced : List AwsTag → String → String → List AwsTag → Type 0
Replaced tags key value after =
    (replace_or_add_tag tags key value ≡ ok after)
    × All IsFilled after
    × ((other : String)
        → value_of other after ≡ (if key == other then some value else value_of other tags))

here-Replaced :
    (tag : AwsTag) (tags : List AwsTag) (key value k v : String)
    → tag.key ≡ some k
    → tag.value ≡ some v
    → (k == key) ≡ true
    → All IsFilled tags
    → Replaced (tag ∷ tags) key value (with_value v value tag ∷ tags)
unfolding replace_or_add_tag value_of
here-Replaced tag tags key value k v e f p all = (
  ground (arith, e, f, p),
  (with_value-IsFilled tag v value (k, v, e, f), all),
  λ other. ground (arith, eq_iff k key, eq_iff k other, eq_iff key other, eq_iff v value, e, f, p),
)

later-Replaced :
    (tag : AwsTag) (tags after : List AwsTag) (key value k v : String)
    → tag.key ≡ some k
    → tag.value ≡ some v
    → (k == key) ≡ false
    → Replaced tags key value after
    → Replaced (tag ∷ tags) key value (tag ∷ after)
unfolding replace_or_add_tag value_of
later-Replaced tag tags after key value k v e f p (done, all, values) = (
  ground (arith, e, p, done),
  ((k, v, e, f), all),
  λ other. ground (arith, eq_iff k key, eq_iff k other, eq_iff key other, e, p, values other),
)

-- Replacing or adding a tag succeeds where no pointer is nil. Its key then has the new value, every
-- other key the one that it had, and no pointer is nil again.
replace_or_add_tag-Replaced :
    (tags : List AwsTag) (key value : String)
    → All IsFilled tags
    → (after : List AwsTag) × Replaced tags key value after
unfolding replace_or_add_tag value_of
replace_or_add_tag-Replaced [] key value all = (
  record { key = some key; value = some value } ∷ [],
  (refl, ((key, value, refl, refl), tt), λ other. refl),
)
replace_or_add_tag-Replaced (tag ∷ tags) key value ((k, v, e, f), all) =
    elim (Bool-cases (k == key)) [
      | inl p ↦ (with_value v value tag ∷ tags, here-Replaced tag tags key value k v e f p all)
      | inr p ↦
          let (after, r) = replace_or_add_tag-Replaced tags key value all in
          (tag ∷ after, later-Replaced tag tags after key value k v e f p r)
    ]

-- The loops that look for the operational tag agree with HasOperationalTag where no pointer is nil.
pub is_marked_inactive-has_operational_tag :
    (tags : List AwsTag)
    → All IsFilled tags
    → (b : Bool) × (is_marked_inactive tags ≡ ok b) × (has_operational_tag tags ≡ ok b)
unfolding is_marked_inactive has_operational_tag
is_marked_inactive-has_operational_tag [] all = (false, refl, refl)
is_marked_inactive-has_operational_tag (tag ∷ tags) ((k, v, e, f), all) =
    let (b, p, q) = is_marked_inactive-has_operational_tag tags all in
    (
      (k == operational_status_key && v == inactive) || b,
      ground (arith, e, f, p),
      ground (arith, e, f, q),
    )

-- A list with the operational tag set is found to be marked.
pub replaced-is_marked_inactive :
    (tags : List AwsTag)
    → All IsFilled tags
    → (after : List AwsTag) × (replace_or_add_tag tags operational_status_key inactive ≡ ok after)
      × (is_marked_inactive after ≡ ok true)
unfolding replace_or_add_tag is_marked_inactive
replaced-is_marked_inactive [] all = (_, refl, refl)
replaced-is_marked_inactive (tag ∷ tags) ((k, v, e, f), all) =
    elim (Bool-cases (k == operational_status_key)) [
      | inl p ↦
          let (b, q, _) = is_marked_inactive-has_operational_tag tags all in
          (
            with_value v inactive tag ∷ tags,
            ground (arith, e, f, p),
            ground (arith, e, f, p, q, eq_refl inactive),
          )
      | inr p ↦
          let (after, q, r) = replaced-is_marked_inactive tags all in
          (tag ∷ after, ground (arith, e, f, p, q), ground (arith, e, f, p, r))
    ]
