-- ===== src/Queue/Entries.antt =====
-- The content of a sorted set as a partial map from members to scores.
use schedora.Base.{
  ℕ, ◌+◌, ◌≤◌, true, false, Option, none, some, List, [], ◌∷◌, ◌≡◌, ◌≢◌, inl, inr, IsIn, ◌==◌,
  if◌then◌else◌, length, not, any, is_some, nat_eq, nat_beq_iff, Option-cases, ap, keep_sound,
  arith, Bool-cases, refl,
}
use schedora.Store.{Entry, place, without, before}

abbrev pub score_of : ℕ → List Entry → Option ℕ
score_of m [] = none
score_of m (x ∷ l) = if x.member == m then some x.score else score_of m l

-- Read from its head a sorted set falls in score, and holds each member once.
abbrev pub IsRanked : List Entry → Type 0
IsRanked [] = Unit
IsRanked (x ∷ l) =
    ((y : Entry) → IsIn y l → (y.score ≤ x.score) × (y.member ≢ x.member)) × IsRanked l

pub score_of-without :
    (k m : ℕ) (l : List Entry) → score_of k (without m l) ≡ (if m == k then none else score_of k l)
score_of-without k m [] = ground arith
score_of-without k m (x ∷ l) = ground (arith, score_of-without k m l)

pub score_of-place :
    (k : ℕ) (a : Entry) (l : List Entry)
    → score_of a.member l ≡ none
    → score_of k (place a l) ≡ (if a.member == k then some a.score else score_of k l)
score_of-place k a [] h = refl
score_of-place k a (x ∷ l) h = ground (arith, score_of-place k a l)

pub any-score_of : (m : ℕ) (l : List Entry) → any (λ x. x.member == m) l ≡ is_some (score_of m l)
any-score_of m [] = refl
any-score_of m (x ∷ l) = ground (arith, any-score_of m l)

pub without_absent : (m : ℕ) (l : List Entry) → score_of m l ≡ none → without m l ≡ l
without_absent m [] h = refl
without_absent m (x ∷ l) h = ground (arith, without_absent m l)

pub without-place : (a : Entry) (l : List Entry) → without a.member (place a l) ≡ without a.member l
without-place a [] = ground arith
without-place a (x ∷ l) = ground (arith, without-place a l)

pub length-place : (a : Entry) (l : List Entry) → length (place a l) ≡ length l + 1
length-place a [] = omega arith
length-place a (x ∷ l) = ground (arith, length-place a l)

IsIn-score_of : (y : Entry) (l : List Entry) → IsIn y l → is_some (score_of y.member l) ≡ true
IsIn-score_of y [] m = elim m [ ]
IsIn-score_of y (x ∷ l) m = ground (arith, IsIn-score_of y l)

pub score_of-IsIn :
    (m p : ℕ) (l : List Entry)
    → score_of m l ≡ some p
    → (y : Entry) × IsIn y l × (y.member ≡ m) × (y.score ≡ p)
score_of-IsIn m p [] h = absurd (ground arith)
score_of-IsIn m p (x ∷ l) h = elim (Bool-cases (x.member == m)) [
  | inl here ↦ (x, inl refl, ground arith, ground arith)
  | inr past ↦ let (y, i, a, b) = score_of-IsIn m p l (ground arith) in (y, inr i, a, b)
]

pub absent-ne : (y : Entry) (m : ℕ) (l : List Entry) → score_of m l ≡ none → IsIn y l → y.member ≢ m
absent-ne y m l h i e = cc (IsIn-score_of y l i, ap (λ k. is_some (score_of k l)) e, h)

pub score_of-head : (x : Entry) (l : List Entry) → IsRanked (x ∷ l) → score_of x.member l ≡ none
score_of-head x l r = elim (Option-cases (score_of x.member l)) [
  | inl absent ↦ absent
  | inr (p, found) ↦
      let (y, i, same, _) = score_of-IsIn x.member p l found in absurd ((r.0 y i).1 same)
]

pub length-without :
    (m : ℕ) (l : List Entry)
    → IsRanked l
    → length l ≡ length (without m l) + (if is_some (score_of m l) then 1 else 0)
length-without m [] r = omega arith
length-without m (x ∷ l) r =
    ground (arith, length-without m l r.1, score_of-head x l r, nat_beq_iff x.member m)

IsIn-place : (y a : Entry) (l : List Entry) → IsIn y (place a l) → IsIn y (a ∷ l)
IsIn-place y a [] m = m
IsIn-place y a (x ∷ l) m = ground (arith, IsIn-place y a l)

pub without-IsRanked : (m : ℕ) (l : List Entry) → IsRanked l → IsRanked (without m l)
without-IsRanked m [] r = tt
without-IsRanked m (x ∷ l) r = elim (Bool-cases (x.member == m)) [
  | inl goes ↦ rw goes (without-IsRanked m l r.1)
  | inr stays ↦
      rw stays
        ((λ y i. r.0 y (keep_sound (λ z. not (z.member == m)) y l i).0), without-IsRanked m l r.1)
]

pub place-IsRanked :
    (a : Entry) (l : List Entry) → score_of a.member l ≡ none → IsRanked l → IsRanked (place a l)
place-IsRanked a [] h r = ((λ y i. elim i [ ]), tt)
place-IsRanked a (x ∷ l) h r = elim (Bool-cases (before x a)) [
  | inl lower ↦ rw lower ((λ y i. below_new y lower i), r)
  | inr higher ↦
      rw higher
        ((λ y i. below_old y higher (IsIn-place y a l i)), place-IsRanked a l (ground arith) r.1)
]
  where
    below_new :
        (y : Entry)
        → before x a ≡ true
        → IsIn y (x ∷ l)
        → (y.score ≤ a.score) × (y.member ≢ a.member)
    below_new y lower (inl same) =
        (rw same (ground arith), absent-ne y a.member (x ∷ l) h (inl same))
    below_new y lower (inr i) = (ground (arith, r.0 y i), absent-ne y a.member (x ∷ l) h (inr i))

    below_old :
        (y : Entry)
        → before x a ≡ false
        → IsIn y (a ∷ l)
        → (y.score ≤ x.score) × (y.member ≢ x.member)
    below_old y higher (inl same) = (rw same (ground arith), rw same (ground arith))
    below_old y higher (inr i) = r.0 y i
