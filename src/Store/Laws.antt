-- ===== src/Store/Laws.antt =====
-- What follows from the laws of a table.
use schedora.Base.{
  ℕ, zero, suc, take, take_sound, keep, keep_sound, Bool-cases, Bool, map, IsIn-map, Bool, true,
  Option, none, some, inl, inr, ◌≡◌, sym, ◌∙◌, ap, Comparable, ◌==◌, eq→≡, ≡→eq, Option-cases,
  is_some, List, [], ◌∷◌, IsIn, ◌≢◌, refl, ne→eq_false, eq_self,
}
use schedora.Store.{Table, Distinct}

module _ {K R : Type 0} (key : R → K) where
  pub take-Distinct : (n : ℕ) (l : List R) → Distinct key l → Distinct key (take n l)
  take-Distinct zero l d = tt
  take-Distinct (suc n) [] d = tt
  take-Distinct (suc n) (x ∷ l) d = ((λ y m. d.0 y (take_sound y n l m)), take-Distinct n l d.1)

  pub keep-Distinct : (p : R → Bool) (l : List R) → Distinct key l → Distinct key (keep p l)
  keep-Distinct p [] d = tt
  keep-Distinct p (x ∷ l) d = elim (Bool-cases (p x)) [
    | inl stays ↦ rw stays ((λ y m. d.0 y (keep_sound p y l m).0), keep-Distinct p l d.1)
    | inr goes ↦ rw goes (keep-Distinct p l d.1)
  ]

  -- An update that leaves the keys alone.
  pub map-Distinct :
      (f : R → R) (l : List R)
      → ((x : R) → key (f x) ≡ key x)
      → Distinct key l
      → Distinct key (map f l)
  map-Distinct f [] same d = tt
  map-Distinct f (x ∷ l) same d = (
    λ y m eq.
        let (z, i, e) = IsIn-map f y l m in d.0 z i (sym (same z) ∙ sym (ap key e) ∙ eq ∙ same x),
    map-Distinct f l same d.1,
  )

module _ {K R : Type 0} ⦃e : Comparable K⦄ {key : R → K} {clash : R → R → Bool} {valid : R → Bool}
    (table : Table K R key clash valid) where
  open table use {
    State, get, first, get_key, get_valid, first_sound, first_complete, flush, get-flush, flush_iff,
  }

  -- The query for a primary key finds the row of the key.
  pub first-key : (k : K) (s : State) → first (λ r. key r == k) s ≡ get k s
  first-key k s = elim (Option-cases (first (λ r. key r == k) s)) [
    | inl missed ↦ elim (Option-cases (get k s)) [
      | inl gone ↦ missed ∙ sym gone
      | inr (r, found) ↦
          let passed = ≡→eq (key r) k (get_key k s r found) in
          let failed = first_complete (λ x. key x == k) s k r missed found in cc
    ]
    | inr (r, found) ↦
        let (held, passed) = first_sound (λ x. key x == k) s r found in
        found ∙ sym (ap (λ x. get x s) (sym (eq→≡ (key r) k passed)) ∙ held)
  ]

  -- A row that meets the CHECK constraints is flushed.
  pub flush_some : (r : R) (s : State) → valid r ≡ true → (t : State) × (flush r s ≡ some t)
  flush_some r s v = elim (Option-cases (flush r s)) [
    | inl failed ↦ cc (flush_iff r s, v, ap (λ o. is_some o) failed)
    | inr done ↦ done
  ]

  -- The flush of all changed rows at a commit.
  unfoldable pub flush_all : List R → State → Option State
  flush_all [] s = some s
  flush_all (r ∷ l) s = elim (flush r s) [ none ↦ none | some t ↦ flush_all l t ]

  pub flush_all-some :
      (l : List R) (s : State)
      → ((r : R) → IsIn r l → valid r ≡ true)
      → (t : State) × (flush_all l s ≡ some t)
  unfolding flush_all
  flush_all-some [] s v = (s, refl)
  flush_all-some (r ∷ l) s v =
      let (t, done) = flush_some r s (v r (inl refl)) in
      let (u, rest) = flush_all-some l t (λ x m. v x (inr m)) in (u, rw (done, flush_all) rest)

  flush_all-cons :
      (r : R) (l : List R) (s u : State)
      → flush_all (r ∷ l) s ≡ some u
      → (t : State) × (flush r s ≡ some t) × (flush_all l t ≡ some u)
  unfolding flush_all
  flush_all-cons r l s u h = elim (Option-cases (flush r s)) [
    | inl failed ↦ absurd (cc (rw (failed, flush_all) at h))
    | inr (t, done) ↦ (t, done, rw (done, flush_all) at h)
  ]

  -- A row that is not among the flushed ones stays.
  pub flush_all_other :
      (k : K) (l : List R) (s t : State)
      → flush_all l s ≡ some t
      → ((r : R) → IsIn r l → key r ≢ k)
      → get k t ≡ get k s
  unfolding flush_all
  flush_all_other k [] s t h ne = cc
  flush_all_other k (r ∷ l) s u h ne =
      let (t, first_done, rest) = flush_all-cons r l s u h in
      flush_all_other k l t u rest (λ x m. ne x (inr m))
      ∙ get-flush k r s t first_done
      ∙ rw (ne→eq_false (key r) k (ne r (inl refl)))

  -- The flushed rows are in the table, if no two have one key.
  pub flush_all_self :
      (r : R) (l : List R) (s t : State)
      → Distinct key l
      → IsIn r l
      → flush_all l s ≡ some t
      → get (key r) t ≡ some r
  flush_all_self r [] s t d m h = elim m [ ]
  flush_all_self r (x ∷ l) s u d (inl same) h =
      let (t, first_done, rest) = flush_all-cons x l s u h in
      rw same (
        flush_all_other (key x) l t u rest (λ y m. d.0 y m)
        ∙ get-flush (key x) x s t first_done
        ∙ rw (eq_self (key x)))
  flush_all_self r (x ∷ l) s u d (inr m) h =
      let (t, first_done, rest) = flush_all-cons x l s u h in flush_all_self r l t u d.1 m rest
