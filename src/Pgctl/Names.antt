-- ===== src/Pgctl/Names.antt =====
-- The names of the states of pkg/pgctl/stateEnum.go, under which a migration is stored and resumed.
use db_controller.Prelude.{
  String, ◌≡◌, refl, ap, ◌∙◌, ◌≢◌, ◌⊎◌, ◌↔◌, sym, inl, inr, All, Option, none, some, lookup,
  lookup-All,
}
use db_controller.Api.Error.{ok, bind-ok}
use db_controller.Pgctl.State.{
  StateEnum, initial, completed, enum_string, get_state_enum, or_unknown, state_map, State,
  retry_state, completed_state, state_string, get_replicator_state, state_of,
}

get_state_enum-enum_string : (s : StateEnum) → get_state_enum (enum_string s) ≡ ok s
unfolding get_state_enum
get_state_enum-enum_string initial = refl
get_state_enum-enum_string _ = refl

abbrev pub IsName : String → StateEnum → Type 0
IsName name s = (name ≡ enum_string s) ⊎ ((name ≡ "") × (s ≡ initial))

state_map-IsName : All (λ (e : String × StateEnum). IsName e.0 e.1) state_map
unfolding state_map
state_map-IsName = (
  inr (refl, refl),
  (
    inl refl,
    (
      inl refl,
      (
        inl refl,
        (
          inl refl,
          (
            inl refl,
            (
              inl refl,
              (
                inl refl,
                (
                  inl refl,
                  (
                    inl refl,
                    (
                      inl refl,
                      (
                        inl refl,
                        (
                          inl refl,
                          (
                            inl refl,
                            (inl refl, (inl refl, (inl refl, (inl refl, (inl refl, tt))))),
                          ),
                        ),
                      ),
                    ),
                  ),
                ),
              ),
            ),
          ),
        ),
      ),
    ),
  ),
)

or_unknown-ok : (o : Option StateEnum) (s : StateEnum) → or_unknown o ≡ ok s → o ≡ some s
or_unknown-ok none s h = cc
or_unknown-ok (some t) s h = cc

get_state_enum-IsName : (name : String) (s : StateEnum) → get_state_enum name ≡ ok s → IsName name s
get_state_enum-IsName name s h =
    lookup-All IsName name s state_map state_map-IsName
      (or_unknown-ok (lookup name state_map) s (unfold get_state_enum in h))

-- A name is accepted for a state exactly when it is the state's own, or the empty name, which stands
-- for `initial`: every state is found again under the name that it is stored by.
get_state_enum_iff : (name : String) (s : StateEnum) → (get_state_enum name ≡ ok s) ↔ IsName name s
get_state_enum_iff name s = (
  get_state_enum-IsName name s,
  λ h. elim h [
    | inl e ↦ ap get_state_enum e ∙ get_state_enum-enum_string s
    | inr (e, i) ↦ ap get_state_enum e ∙ (unfold get_state_enum in ap ok (sym i))
  ],
)

-- A migration that stored the name of its state is resumed in that state. Only `retry`, which is
-- never stored, is refused.
pub get_replicator_state-state_string :
    (s : State) → s ≢ retry_state → get_replicator_state (state_string s) ≡ ok s
unfolding get_replicator_state state_string
get_replicator_state-state_string retry_state h = absurd (h refl)
get_replicator_state-state_string _ h = refl

state_of-completed : (s : StateEnum) → state_of s ≡ ok completed_state → s ≡ completed
unfolding state_of
state_of-completed completed h = refl
state_of-completed _ h = cc

state_of-retry : (s : StateEnum) → state_of s ≢ ok retry_state
unfolding state_of
state_of-retry initial h = cc
state_of-retry _ h = cc

initial-ne : completed ≢ initial
initial-ne e = cc

-- A name other than that of a completed migration never resumes to the completed state, and no
-- name resumes to `retry`: the state that is resumed can be executed.
get_replicator_state-runs :
    (name : String) (s : State)
    → name ≢ "completed"
    → get_replicator_state name ≡ ok s
    → (s ≢ completed_state) × (s ≢ retry_state)
unfolding get_replicator_state
get_replicator_state-runs name s h e =
    let (state, found, chosen) = bind-ok (get_state_enum name) state_of e in
    (
      λ p.
          elim (get_state_enum-IsName name completed
            (found ∙ ap ok (state_of-completed state (chosen ∙ ap ok p)))) [
              | inl q ↦ h (unfold enum_string in q)
              | inr q ↦ initial-ne q.1
            ],
      λ p. state_of-retry state (chosen ∙ ap ok p),
    )
