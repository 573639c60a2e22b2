-- ===== src/Registry.antt =====
-- worker/handler_registry.py: the dictionary from job types to handlers, in the order of registration.
pub mod Laws
use schedora.Base.{
  String, Bool, true, false, Option, none, some, List, [], ◌∷◌, ◌++◌, ◌==◌, ◌||◌, if◌then◌else◌,
  map, string_eq,
}
use schedora.Errors.{Result, ok, err, value_error, key_error}

module _ {H : Type 0} where
  unfoldable pub has_handler : String → List (String × H) → Bool
  has_handler job_type [] = false
  has_handler job_type ((k, h) ∷ l) = k == job_type || has_handler job_type l

  unfoldable pub register_handler : String → H → List (String × H) → Result (List (String × H))
  unfolding has_handler
  register_handler job_type handler l =
      if has_handler job_type l then err value_error else ok (l ++ (job_type, handler) ∷ [])

  unfoldable pub get_handler : String → List (String × H) → Result H
  get_handler job_type [] = err key_error
  get_handler job_type ((k, h) ∷ l) = if k == job_type then ok h else get_handler job_type l

  unfoldable pub list_handlers : List (String × H) → List String
  list_handlers l = map (λ e. e.0) l
