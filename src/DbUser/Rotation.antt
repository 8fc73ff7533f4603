-- ===== src/DbUser/Rotation.antt =====
-- The rotation between the users of pkg/dbuser/dbuser.go, and when a user counts as changed.
use Prim.Native.String.{count}
use text.Mathlib.TextLemmas.{length-append}
use db_controller.Prelude.{
  String, Bool, true, false, not, ◌≡◌, ◌≢◌, refl, sym, ap, ◌∙◌, inl, inr, arith, ◌==◌, eq_iff,
  eq_refl, ◌<>◌, has_suffix, has_suffix-append, has_suffix-other, has_suffix-parts, trim_suffix,
  trim_suffix-append, trim_suffix_none, Bool-cases,
}
use db_controller.DbUser.{
  suffix_a, suffix_b, new_db_user, trim_user_suffix, is_user_changed, next_user,
}

suffixes-ne : suffix_a ≢ suffix_b
suffixes-ne = ground (arith, eq_iff suffix_a suffix_b)

user_a-suffix : (base : String) → has_suffix (base <> suffix_a) suffix_a ≡ true
user_a-suffix base = has_suffix-append base suffix_a

user_b-suffix : (base : String) → has_suffix (base <> suffix_b) suffix_a ≡ false
user_b-suffix base = has_suffix-other base suffix_b suffix_a refl (λ e. suffixes-ne (sym e))

-- For every role name, the user after the `_a` user is the `_b` user and the other way round, so
-- two rotations come back to the user that they began with.
next_user_alternates :
    (base : String)
    → let dbu = new_db_user base in
      (next_user dbu dbu.user_a ≡ dbu.user_b) × (next_user dbu dbu.user_b ≡ dbu.user_a)
unfolding new_db_user next_user
next_user_alternates base = (rw (user_a-suffix base), rw (user_b-suffix base))

next_user-suffix :
    (base current : String)
    → has_suffix (next_user (new_db_user base) current) suffix_a ≡ not (has_suffix current suffix_a)
unfolding new_db_user next_user
next_user-suffix base current = elim (Bool-cases (has_suffix current suffix_a)) [
  | inl p ↦ rw p (user_b-suffix base)
  | inr p ↦ rw p (user_a-suffix base)
]

not-ne : (b : Bool) → not b ≢ b
not-ne true e = cc
not-ne false e = cc

-- Whatever the current user is, the next one is another name: a rotation never sets the password
-- of the user that is in use.
next_user-ne : (base current : String) → next_user (new_db_user base) current ≢ current
next_user-ne base current e =
    not-ne _ (sym (next_user-suffix base current) ∙ ap (λ u. has_suffix u suffix_a) e)

append-ne : (b s : String) → count s ≡ 2 → b ≢ b <> s
append-ne b s n e = absurd (omega (arith, ap count e, length-append b s))

nonempty : (b s : String) → count s ≡ 2 → ((b <> s) == "") ≡ false
nonempty b s n = elim (Bool-cases ((b <> s) == "")) [
  | inl p ↦ absurd (omega (arith, ap count ((eq_iff _ _).0 p), length-append b s))
  | inr p ↦ p
]

trim_user_b : (base : String) → trim_user_suffix (base <> suffix_b) ≡ base
unfolding trim_user_suffix
trim_user_b base =
    rw (trim_suffix_none (base <> suffix_b) suffix_a (user_b-suffix base))
      (trim_suffix-append base suffix_b)

trim_user_a : (base : String) → trim_user_suffix (base <> suffix_a) ≡ trim_suffix base suffix_b
unfolding trim_user_suffix
trim_user_a base = rw (trim_suffix-append base suffix_a)

trim_b-test_append :
    (b : String)
    → not (trim_suffix (b <> suffix_b) suffix_b == b <> suffix_b)
      ≡ has_suffix (b <> suffix_b) suffix_b
trim_b-test_append b = rw (has_suffix-append b suffix_b) (
    rw (trim_suffix-append b suffix_b)
      (ground (arith, eq_iff b (b <> suffix_b), append-ne b suffix_b)))

-- Trimming `_b` gives the role's name back exactly when the name does not end in it.
trim_b-test : (base : String) → not (trim_suffix base suffix_b == base) ≡ has_suffix base suffix_b
trim_b-test base = elim (Bool-cases (has_suffix base suffix_b)) [
  | inl p ↦ let (b, e) = has_suffix-parts base suffix_b p in rw e (trim_b-test_append b)
  | inr p ↦ rw p (rw (trim_suffix_none base suffix_b p) (rw eq_refl))
]

-- The `_b` user of a role never counts as changed. The `_a` user counts as changed exactly when
-- the role's own name ends in `_b`.
is_user_changed_own :
    (base : String)
    → let dbu = new_db_user base in
      (is_user_changed dbu dbu.user_b ≡ false)
      × (is_user_changed dbu dbu.user_a ≡ has_suffix base suffix_b)
unfolding new_db_user is_user_changed
is_user_changed_own base = (
  rw (nonempty base suffix_b refl) (rw (trim_user_b base) (rw eq_refl)),
  rw (nonempty base suffix_a refl) (rw (trim_user_a base) (trim_b-test base)),
)
