-- ===== src/Store/Sample/Links.antt =====
-- The links of workflows to jobs as a function, with the laws that the models ask for.
use schedora.Base.{
  ℕ, List, [], ◌∷◌, ◌≡◌, ◌==◌, ◌⊎◌, ◌↔◌, inl, inr, not, nat_eq, IsIn, keep, keep_sound,
  keep_complete, if◌then◌else◌, Bool-cases, arith, ≡→eq, eq→≡,
}
use schedora.Store.{Distinct, Memberships}
use schedora.Store.Laws.{keep-Distinct}

abbrev pub unique : List ℕ → List ℕ
unique [] = []
unique (x ∷ xs) = x ∷ keep (λ y. not (y == x)) (unique xs)

unique_iff : (k : ℕ) (l : List ℕ) → IsIn k (unique l) ↔ IsIn k l
unique_iff k [] = (λ m. m, λ m. m)
unique_iff k (x ∷ l) =
    let (out, back) = unique_iff k l in
    let sound = keep_sound (λ y. not (y == x)) k (unique l) in
    let complete = keep_complete (λ y. not (y == x)) k (unique l) in
    elim (Bool-cases (k == x)) [
      | inl hit ↦ (λ m. inl (eq→≡ k x hit), λ m. inl (eq→≡ k x hit))
      | inr miss ↦ ground (arith, sound, complete, out, back)
    ]

pub unique-Distinct : (l : List ℕ) → Distinct (λ (k : ℕ). k) (unique l)
unique-Distinct [] = tt
unique-Distinct (x ∷ l) = (
  λ y m same. ground (arith, keep_sound (λ z. not (z == x)) y (unique l) m, ≡→eq y x same),
  keep-Distinct (λ k. k) (λ y. not (y == x)) (unique l) (unique-Distinct l),
)

abbrev pub append_link : ℕ → ℕ → (ℕ → List ℕ) → ℕ → List ℕ
append_link v j s w = if v == w then j ∷ s w else s w

pub linked-append_link :
    (w v j k : ℕ) (s : ℕ → List ℕ)
    → IsIn k (unique (append_link v j s w)) ↔ (IsIn k (unique (s w)) ⊎ ((v ≡ w) × (j ≡ k)))
linked-append_link w v j k s =
    let before = unique_iff k (s w) in
    let after = unique_iff k (append_link v j s w) in
    elim (Bool-cases (v == w)) [
      | inl hit ↦ let same = eq→≡ v w hit in ground (arith, before, after)
      | inr miss ↦ ground (arith, before, after, ≡→eq v w)
    ]

abbrev pub map_links : Memberships
map_links = record {
  State = ℕ → List ℕ;
  linked = λ w s. unique (s w);
  append = append_link;
  linked-append = linked-append_link;
  linked_distinct = λ w s. unique-Distinct (s w);
}
