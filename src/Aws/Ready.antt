-- ===== src/Aws/Ready.antt =====
-- isResourceReady and extractVersion of pkg/databaseclaim/databaseclaim.go.
use Prim.Native.String.{[] as nil, ◌∷◌ as ◌:::◌}
use Prim.Native.Char.{code}
use db_controller.Prelude.{
  ℕ, String, Bool, true, false, ◌&&◌, List, [], ◌∷◌, contains, eqb, ◌==◌, ◌<>◌, if◌then◌else◌,
}
use db_controller.Api.Error.{Err, Result, ok, err, panic, message, followed, wrapped, ◌>>=◌}
use db_controller.Aws.{ResourceCondition}

-- ErrInvalidDBVersion
abbrev pub err_invalid_db_version : Err
err_invalid_db_version = message "invalid database version"

-- a character before the first part
abbrev grow : String → List String → List String
grow c [] = c ∷ []
grow c (w ∷ ws) = (c <> w) ∷ ws

-- strings.Split by one character
unfoldable split : ℕ → String → List String
split sep nil = "" ∷ []
split sep (c ::: s) =
    let rest = split sep s in if eqb (code c) sep then "" ∷ rest else grow (c ::: nil) rest

-- splitMessage[i+1], which is out of range at the last word
abbrev first_word : List String → Result String
first_word [] = panic
first_word (w ∷ ws) = ok w

unfoldable word_after_version : List String → Result String
word_after_version [] = ok ""
word_after_version (w ∷ ws) = if w == "version" then first_word ws else word_after_version ws

-- extractVersion
unfoldable pub extract_version : String → Result String
unfolding split word_after_version
extract_version text = word_after_version (split b' ' text)

abbrev cannot_find_version : String
cannot_find_version = "InvalidParameterCombination: Cannot find version"

-- the error for a condition with the reason ReconcileError
unfoldable pub reconcile_error : ResourceCondition → Result Bool
unfolding extract_version
reconcile_error c =
    if contains c.message cannot_find_version
    then (extract_version c.message >>= λ v.
        err (followed err_invalid_db_version (": requested version " <> v)))
    else err (message ("resource is not ready: " <> c.message))

-- isResourceReady, over the conditions in their order
unfoldable pub is_resource_ready : List ResourceCondition → Result Bool
unfolding reconcile_error
is_resource_ready [] = ok false
is_resource_ready (c ∷ conditions) =
    if c.type == "Ready" && c.status == "True"
    then ok true
    else if c.reason == "ReconcileError"
    then reconcile_error c
    else is_resource_ready conditions

abbrev pub named : String → Result Bool → Result Bool
named text (ok b) = ok b
named text (err e) = err (wrapped text e)
named text panic = panic

-- the method isResourceReady
unfoldable pub resource_readiness : String → String → List ResourceCondition → Result Bool
unfolding is_resource_ready
resource_readiness typ name conditions =
    named (typ <> (" " <> (name <> ": "))) (is_resource_ready conditions)
