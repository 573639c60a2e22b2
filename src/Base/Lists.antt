-- ===== src/Base/Lists.antt =====
-- Lists measured by native numbers, and predicates on lists by recursion.
use Prim.Native.Nat.{ℕ, zero, suc, ◌+◌, ◌≤◌, ◌<◌}
use mathlib.Core.Path.{◌≡◌, refl, ap, ◌∙◌}
use mathlib.Core.Logic.{◌⊎◌, ◌↔◌, inl, inr}
use mathlib.Core.Bool.{Bool, true, false, ◌&&◌, ◌||◌}
use mathlib.Core.Option.{Option, none, some}
use mathlib.Core.List.{List, [], ◌∷◌, map}
use native.Mathlib.Omega.{arith}
use schedora.Base.Tests.{if◌then◌else◌, Bool-cases}

module _ {ℓ} {A : Type ℓ} where
  abbrev pub length : List A → ℕ
  length [] = 0
  length (x ∷ xs) = suc (length xs)

  abbrev pub take : ℕ → List A → List A
  take zero xs = []
  take (suc n) [] = []
  take (suc n) (x ∷ xs) = x ∷ take n xs

  -- The items that pass a test, in their order.
  abbrev pub keep : (A → Bool) → List A → List A
  keep p [] = []
  keep p (x ∷ xs) = let rest = keep p xs in if p x then x ∷ rest else rest

  abbrev pub head_of : List A → Option A
  head_of [] = none
  head_of (x ∷ xs) = some x

  abbrev pub tail_of : List A → List A
  tail_of [] = []
  tail_of (x ∷ xs) = xs

  -- Python's `any` and `all` over a generator.
  abbrev pub any : (A → Bool) → List A → Bool
  any p [] = false
  any p (x ∷ xs) = p x || any p xs

  abbrev pub all : (A → Bool) → List A → Bool
  all p [] = true
  all p (x ∷ xs) = p x && all p xs

  -- Python's `sum(1 for x in xs if p(x))`.
  abbrev pub count : (A → Bool) → List A → ℕ
  count p [] = 0
  count p (x ∷ xs) = (if p x then 1 else 0) + count p xs

-- `x` is one of the items.
abbrev pub IsIn : {A : Type 0} → A → List A → Type 0
IsIn x [] = ⊥
IsIn x (y ∷ ys) = (x ≡ y) ⊎ IsIn x ys

module _ {A : Type 0} (p : A → Bool) where
  pub keep_sound : (x : A) (xs : List A) → IsIn x (keep p xs) → IsIn x xs × (p x ≡ true)
  keep_sound x (y ∷ ys) h = ground (arith, keep_sound x ys)
  keep_sound x [] h = elim h [ ]

  pub keep_complete : (x : A) (xs : List A) → IsIn x xs → p x ≡ true → IsIn x (keep p xs)
  keep_complete x [] h t = elim h [ ]
  keep_complete x (y ∷ ys) h t = ground (arith, keep_complete x ys)

  pub keep_all : (xs : List A) → ((x : A) → IsIn x xs → p x ≡ true) → keep p xs ≡ xs
  keep_all [] h = refl
  keep_all (y ∷ ys) h = rw (h y (inl refl)) (ap (λ l. y ∷ l) (keep_all ys (λ x m. h x (inr m))))

  pub any-false : (x : A) (xs : List A) → any p xs ≡ false → IsIn x xs → p x ≡ false
  any-false x [] e h = elim h [ ]
  any-false x (y ∷ ys) e h = ground (arith, any-false x ys)

  pub any-true : (xs : List A) → any p xs ≡ true → (x : A) × IsIn x xs × (p x ≡ true)
  any-true [] e = absurd (ground arith)
  any-true (y ∷ ys) e = elim (Bool-cases (p y)) [
    | inl h ↦ (y, inl refl, h)
    | inr h ↦ let (x, m, t) = any-true ys (ground arith) in (x, inr m, t)
  ]

  pub any_of : (x : A) (xs : List A) → IsIn x xs → p x ≡ true → any p xs ≡ true
  any_of x [] m t = elim m [ ]
  any_of x (y ∷ ys) m t = ground (arith, any_of x ys)

  pub all-true : (x : A) (xs : List A) → all p xs ≡ true → IsIn x xs → p x ≡ true
  all-true x [] e h = elim h [ ]
  all-true x (y ∷ ys) e h = ground (arith, all-true x ys)

  pub count-le-length : (xs : List A) → count p xs ≤ length xs
  count-le-length [] = omega arith
  count-le-length (x ∷ xs) = ground (arith, count-le-length xs)

  -- `count` and the tests of the items.
  pub count-positive : (xs : List A) → (0 < count p xs) ↔ ((x : A) × IsIn x xs × (p x ≡ true))
  count-positive xs = (some_hit xs, λ (x, m, t). hit_some x xs m t)
    where
      some_hit : (l : List A) → 0 < count p l → (x : A) × IsIn x l × (p x ≡ true)
      some_hit [] h = absurd (omega (arith, h))
      some_hit (y ∷ ys) h = elim (Bool-cases (p y)) [
        | inl t ↦ (y, inl refl, t)
        | inr f ↦ let (x, m, t) = some_hit ys (ground (arith, h, f)) in (x, inr m, t)
      ]

      hit_some : (x : A) (l : List A) → IsIn x l → p x ≡ true → 0 < count p l
      hit_some x [] m t = elim m [ ]
      hit_some x (y ∷ ys) (inl same) t = ground (arith, same, t)
      hit_some x (y ∷ ys) (inr m) t = ground (arith, hit_some x ys m t)

  pub count-full : (xs : List A) → (count p xs ≡ length xs) ↔ ((x : A) → IsIn x xs → p x ≡ true)
  count-full xs = (every xs, full xs)
    where
      every : (l : List A) → count p l ≡ length l → (x : A) → IsIn x l → p x ≡ true
      every [] h x m = elim m [ ]
      every (y ∷ ys) h x m = elim (Bool-cases (p y)) [
        | inl t ↦ elim m [ inl same ↦ ap p same ∙ t | inr i ↦ every ys (ground (arith, h, t)) x i ]
        | inr f ↦ absurd (ground (arith, h, f, count-le-length ys))
      ]

      full : (l : List A) → ((x : A) → IsIn x l → p x ≡ true) → count p l ≡ length l
      full [] h = refl
      full (y ∷ ys) h =
          let rest = full ys (λ x m. h x (inr m)) in ground (arith, h y (inl refl), rest)

pub length-take-le {ℓ} : {A : Type ℓ} (n : ℕ) (xs : List A) → length (take n xs) ≤ n
length-take-le zero xs = omega arith
length-take-le (suc n) [] = omega arith
length-take-le (suc n) (x ∷ xs) = omega (arith, length-take-le n xs)

-- What is taken is as long as it may be, or it is all there is.
pub take-cases {ℓ} :
    {A : Type ℓ} (n : ℕ) (xs : List A) → (length (take n xs) ≡ n) ⊎ (take n xs ≡ xs)
take-cases zero xs = inl (omega arith)
take-cases (suc n) [] = inr refl
take-cases (suc n) (x ∷ xs) = elim (take-cases n xs) [
  | inl full ↦ inl (omega (arith, full))
  | inr whole ↦ inr (ap (λ l. x ∷ l) whole)
]

pub take_sound : {A : Type 0} (x : A) (n : ℕ) (xs : List A) → IsIn x (take n xs) → IsIn x xs
take_sound x zero xs h = elim h [ ]
take_sound x (suc n) [] h = elim h [ ]
take_sound x (suc n) (y ∷ ys) h = ground (arith, take_sound x n ys)

module _ {A B : Type 0} (f : A → B) where
  pub IsIn-map : (b : B) (l : List A) → IsIn b (map f l) → (a : A) × IsIn a l × (b ≡ f a)
  IsIn-map b [] i = elim i [ ]
  IsIn-map b (x ∷ l) (inl same) = (x, inl refl, same)
  IsIn-map b (x ∷ l) (inr i) = let (a, m, e) = IsIn-map b l i in (a, inr m, e)

  pub IsIn-map_of : (a : A) (l : List A) → IsIn a l → IsIn (f a) (map f l)
  IsIn-map_of a [] i = elim i [ ]
  IsIn-map_of a (x ∷ l) (inl same) = inl (ap f same)
  IsIn-map_of a (x ∷ l) (inr i) = inr (IsIn-map_of a l i)

  pub length-map : (l : List A) → length (map f l) ≡ length l
  length-map [] = refl
  length-map (x ∷ l) = ap suc (length-map l)
