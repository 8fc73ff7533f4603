-- ===== src/StatusManager/Conditions.antt =====
-- The list of conditions that pkg/databaseclaim/claimstatus.go keeps is a map by type.
use db_controller.Prelude.{
  String, ◌≡◌, refl, ◌≢◌, inl, inr, Option, none, some, List, [], ◌∷◌, All, arith, ◌==◌, eq_iff,
  Bool-cases, if◌then◌else◌, subst,
}
use db_controller.Api.Claim.{Condition}
use db_controller.StatusManager.{put_condition}

-- The first condition of a type.
unfoldable pub find_condition : String → List Condition → Option Condition
find_condition type [] = none
find_condition type (d ∷ ds) = if d.type == type then some d else find_condition type ds

abbrev pub HasOther : String → List Condition → Type 0
HasOther type = All (λ (d : Condition). d.type ≢ type)

-- No type stands twice, as the API asks of the list.
abbrev pub IsUnique : List Condition → Type 0
IsUnique [] = Unit
IsUnique (d ∷ ds) = HasOther d.type ds × IsUnique ds

-- The time of a condition that is put in place of another.
abbrev pub timed : Condition → Option Condition → Condition
timed c none = c
timed c (some d) =
    if c.status == d.status then record c { last_transition_time = d.last_transition_time } else c

-- Putting a condition changes what is found of its own type and of no other. It is found with the
-- time of the change, or with the former time where the status is as before.
pub find-put_condition :
    (c : Condition) (type : String) (ds : List Condition)
    → find_condition type (put_condition c ds)
      ≡ (if c.type == type then some (timed c (find_condition type ds)) else find_condition type ds)
unfolding find_condition put_condition
find-put_condition c type [] = refl
find-put_condition c type (d ∷ ds) = ground (
  arith,
  eq_iff d.type c.type,
  eq_iff c.type type,
  eq_iff d.type type,
  find-put_condition c type ds,
)

kept-HasOther :
    (c d : Condition) (type : String) (ds : List Condition)
    → c.type ≢ type
    → HasOther type ds
    → HasOther type (timed c (some d) ∷ ds)
kept-HasOther c d type ds h k = elim (Bool-cases (c.status == d.status)) [
  | inl p ↦ rw p (h, k)
  | inr p ↦ rw p (h, k)
]

kept-IsUnique :
    (c d : Condition) (ds : List Condition)
    → HasOther c.type ds
    → IsUnique ds
    → IsUnique (timed c (some d) ∷ ds)
kept-IsUnique c d ds h u = elim (Bool-cases (c.status == d.status)) [
  | inl p ↦ rw p (h, u)
  | inr p ↦ rw p (h, u)
]

put_condition-HasOther :
    (c : Condition) (type : String) (ds : List Condition)
    → c.type ≢ type
    → HasOther type ds
    → HasOther type (put_condition c ds)
unfolding put_condition
put_condition-HasOther c type [] h k = (h, tt)
put_condition-HasOther c type (d ∷ ds) h k = elim (Bool-cases (d.type == c.type)) [
  | inl p ↦ rw p (kept-HasOther c d type ds h k.1)
  | inr p ↦ rw p (k.0, put_condition-HasOther c type ds h k.1)
]

-- Putting a condition into a list in which no type stands twice gives such a list.
put_condition-IsUnique :
    (c : Condition) (ds : List Condition) → IsUnique ds → IsUnique (put_condition c ds)
unfolding put_condition
put_condition-IsUnique c [] u = (tt, tt)
put_condition-IsUnique c (d ∷ ds) u = elim (Bool-cases (d.type == c.type)) [
  | inl p ↦
      rw p (kept-IsUnique c d ds (subst (λ t. HasOther t ds) ((eq_iff d.type c.type).0 p) u.0) u.1)
  | inr p ↦ rw p (
    put_condition-HasOther c d.type ds (ground (arith, eq_iff d.type c.type)) u.0,
    put_condition-IsUnique c ds u.1,
  )
]
