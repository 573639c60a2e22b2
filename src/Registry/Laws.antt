-- ===== src/Registry/Laws.antt =====
-- worker/handler_registry.py: the registry is a map that is never overwritten.
use mathlib.Core.List.{map-append}
use schedora.Base.{
  String, false, List, [], ◌∷◌, ◌++◌, ◌≡◌, ◌==◌, if◌then◌else◌, string_eq, arith, refl, ◌↔◌, inl,
  inr, Bool-cases, eq→≡, ap, sym, ◌∙◌, ◌||◌,
}
use schedora.Errors.{ok, err, value_error, key_error}
use schedora.Registry.{has_handler, register_handler, get_handler, list_handlers}

module _ {H : Type 0} where
  has-append :
      (t : String) (l m : List (String × H))
      → has_handler t (l ++ m) ≡ (has_handler t l || has_handler t m)
  unfolding has_handler
  has-append t [] m = refl
  has-append t ((k, h) ∷ l) m = ground (arith, has-append t l m)

  get-append :
      (t : String) (l m : List (String × H))
      → get_handler t (l ++ m) ≡ (if has_handler t l then get_handler t l else get_handler t m)
  unfolding has_handler get_handler
  get-append t [] m = refl
  get-append t ((k, h) ∷ l) m = ground (arith, get-append t l m)

  -- `get_handler` raises KeyError exactly when `has_handler` answers False.
  pub get_handler-key_error_iff :
      (t : String) (l : List (String × H))
      → (get_handler t l ≡ err key_error) ↔ (has_handler t l ≡ false)
  unfolding has_handler get_handler
  get_handler-key_error_iff t [] = ((λ h. refl), λ h. refl)
  get_handler-key_error_iff t ((k, h) ∷ l) = ground (arith, get_handler-key_error_iff t l)

  looked_up :
      (t u : String) (h : H) (l : List (String × H))
      → has_handler t l ≡ false
      → (if has_handler u l then get_handler u l else (if t == u then ok h else err key_error))
        ≡ (if t == u then ok h else get_handler u l)
  looked_up t u h l new = elim (Bool-cases (t == u)) [
    | inl hit ↦ rw (hit, ap (λ v. has_handler v l) (sym (eq→≡ t u hit)) ∙ new)
    | inr miss ↦ elim (Bool-cases (has_handler u l)) [
      | inl known ↦ rw (miss, known)
      | inr absent ↦ rw (miss, absent) (sym ((get_handler-key_error_iff u l).1 absent))
    ]
  ]

  -- Registering a type that has no handler succeeds: the type then has the given handler, every other
  -- lookup is as before, and the list of types ends in the new one.
  pub register_handler_new :
      (t u : String) (h : H) (l : List (String × H))
      → has_handler t l ≡ false
      → (l' : List (String × H)) × (register_handler t h l ≡ ok l')
        × (get_handler u l' ≡ (if t == u then ok h else get_handler u l))
        × (list_handlers l' ≡ list_handlers l ++ t ∷ [])
  unfolding register_handler get_handler list_handlers
  register_handler_new t u h l new = (
    l ++ (t, h) ∷ [],
    rw new,
    get-append u l ((t, h) ∷ []) ∙ looked_up t u h l new,
    map-append (λ e. e.0) l ((t, h) ∷ []),
  )

  -- Registering a type that `get_handler` finds raises ValueError.
  pub register_handler_known :
      (t : String) (h g : H) (l : List (String × H))
      → get_handler t l ≡ ok g
      → register_handler t h l ≡ err value_error
  unfolding register_handler
  register_handler_known t h g l found = elim (Bool-cases (has_handler t l)) [
    | inl known ↦ rw known
    | inr absent ↦ cc ((get_handler-key_error_iff t l).1 absent)
  ]
