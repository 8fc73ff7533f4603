-- ===== src/DbClient/Functions.antt =====
-- What the loop of ManageSystemFunctions of pkg/dbclient/client.go does with a function that is
-- missing, behind one that is there.
use db_controller.Prelude.{String, true, [], ◌∷◌, ◌≡◌, Map, arith, eq_refl}
use db_controller.Api.Error.{Err, ok, err}
use db_controller.DbClient.Connect.{Client}
use db_controller.DbClient.Databases.{
  function_name, function_schema, manage_functions, says_missing,
}
use db_controller.Exec.{◌>>◌}
use db_controller.Sql.{Sql}

module _ {W : Type 0} (sql : Sql W) (pc : Client) where
  -- Wherever the loop stands: where it comes to a function that returns a text, whatever that one is
  -- to return, and the next function does not exist behind it, and is to return the same text, then
  -- the loop goes on behind both without creating the missing one, and without an error of its own.
  pub missing_function_skipped :
      (db f g wanted text current : String) (rest : Map String) (e : Err) (w : W)
      → sql.call_function db (function_schema f) (function_name f) w ≡ ok text
      → sql.call_function db
          (function_schema g)
          (function_name g)
          (manage_functions sql pc db current ((f, wanted) ∷ []) w).1
        ≡ err e
      → says_missing e ≡ true
      → manage_functions sql pc db current ((f, wanted) ∷ (g, text) ∷ rest) w
        ≡ (manage_functions sql pc db current ((f, wanted) ∷ [])
              >> manage_functions sql pc db text rest)
            w
  unfolding manage_functions
  missing_function_skipped db f g wanted text current rest e w h k m =
      ground (arith, h, k, m, eq_refl text)
