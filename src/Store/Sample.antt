-- ===== src/Store/Sample.antt =====
-- Stores that run, to show that the laws can be met: a table is the list of the flushed rows, the
-- latest first, and Redis is a function from keys.
pub mod Keys
pub mod Links
use schedora.Base.{
  ℕ, ◌+◌, ◌*◌, String, Bool, true, false, Option, none, some, List, [], ◌∷◌, ◌≡◌, ◌≢◌, ◌↔◌, refl,
  sym, inl, inr, IsIn, Comparable, ◌==◌, ltb, if◌then◌else◌, length, ◌&&◌, not, keep, head_of,
  tail_of, any, is_some, keep_sound, any-false, any-true, keep_complete, keep_all, eq→≡, ≡→eq,
  eq_self, Bool-cases, nat_eq, string_eq, arith, and_true,
}
use schedora.Store.Laws.{keep-Distinct}
use schedora.Store.{Table, Distinct, Entry, QueueStore, PresenceStore, place, without}

module _ {K R : Type 0} ⦃e : Comparable K⦄ (key : R → K) where
  abbrev pub find : K → List R → Option R
  find k [] = none
  find k (r ∷ s) = if key r == k then some r else find k s

  -- The rows that no later flush has replaced.
  abbrev pub rows : List R → List R
  rows [] = []
  rows (r ∷ s) = r ∷ keep (λ x. not (key x == key r)) (rows s)

  pub find-key : (k : K) (s : List R) (r : R) → find k s ≡ some r → key r ≡ k
  find-key k [] r h = absurd (ground arith)
  find-key k (x ∷ s) r h = ground (arith, find-key k s r, e.equal_iff (key x) k)

  older : R → R → Bool
  older x = λ y. not (key y == key x)

  pub find-rows : (r : R) (s : List R) → IsIn r (rows s) → find (key r) s ≡ some r
  find-rows r [] h = elim h [ ]
  find-rows r (x ∷ s) (inl same) = rw (same, eq_self (key x))
  find-rows r (x ∷ s) (inr old) =
      let (m, other) = keep_sound (λ y. not (key y == key x)) r (rows s) old in
      ground (arith, find-rows r s m, e.equal_iff (key x) (key r), e.equal_iff (key r) (key x))

  pub rows-find : (k : K) (r : R) (s : List R) → find k s ≡ some r → IsIn r (rows s)
  rows-find k r [] h = absurd (ground arith)
  rows-find k r (x ∷ s) h = elim (Bool-cases (key x == k)) [
    | inl here ↦ inl (ground arith)
    | inr past ↦
        let deeper : find k s ≡ some r = ground arith in
        inr (
          keep_complete (λ y. not (key y == key x)) r (rows s) (rows-find k r s deeper)
            (ground
              (arith, find-key k s r deeper, e.equal_iff (key x) k, e.equal_iff (key r) (key x))))
  ]

  pub rows-Distinct : (s : List R) → Distinct key (rows s)
  rows-Distinct [] = tt
  rows-Distinct (x ∷ s) = (
    (λ y m same.
        let (_, other) = keep_sound (λ z. not (key z == key x)) y (rows s) m in
        ground (arith, e.equal_iff (key y) (key x))),
    keep-Distinct key _ (rows s) (rows-Distinct s),
  )

  abbrev pub first_row : (R → Bool) → List R → Option R
  first_row p s = head_of (keep p (rows s))

  head_IsIn : (l : List R) (r : R) → head_of l ≡ some r → IsIn r l
  head_IsIn [] r h = absurd (ground arith)
  head_IsIn (x ∷ l) r h = inl (ground arith)

  pub select_sound :
      (p : R → Bool) (s : List R) (r : R)
      → IsIn r (keep p (rows s))
      → (find (key r) s ≡ some r) × (p r ≡ true)
  select_sound p s r h = let (m, passed) = keep_sound p r (rows s) h in (find-rows r s m, passed)

  pub select_complete :
      (p : R → Bool) (s : List R) (k : K) (r : R)
      → find k s ≡ some r
      → p r ≡ true
      → IsIn r (keep p (rows s))
  select_complete p s k r h passed = keep_complete p r (rows s) (rows-find k r s h) passed

  pub first_sound :
      (p : R → Bool) (s : List R) (r : R)
      → first_row p s ≡ some r
      → (find (key r) s ≡ some r) × (p r ≡ true)
  first_sound p s r h = select_sound p s r (head_IsIn (keep p (rows s)) r h)

  head_none : (l : List R) (r : R) → head_of l ≡ none → ¬ IsIn r l
  head_none [] r h m = m
  head_none (x ∷ l) r h m = cc

  pub first_complete :
      (p : R → Bool) (s : List R) (k : K) (r : R)
      → first_row p s ≡ none
      → find k s ≡ some r
      → p r ≡ false
  first_complete p s k r h found = elim (Bool-cases (p r)) [
    | inl passed ↦ absurd (head_none (keep p (rows s)) r h (select_complete p s k r found passed))
    | inr failed ↦ failed
  ]

  -- In a list with one row for a key, the row that stands in it is the one that is found.
  find-IsIn : (r : R) (l : List R) → Distinct key l → IsIn r l → find (key r) l ≡ some r
  find-IsIn r [] d h = elim h [ ]
  find-IsIn r (x ∷ l) d (inl same) = rw (same, eq_self (key x))
  find-IsIn r (x ∷ l) d (inr old) =
      ground (arith, find-IsIn r l d.1 old, e.equal_iff (key x) (key r), d.0 r old)

  pub IsIn-find : (k : K) (r : R) (l : List R) → find k l ≡ some r → IsIn r l
  IsIn-find k r [] h = absurd (ground arith)
  IsIn-find k r (x ∷ l) h = ground (arith, IsIn-find k r l)

  pub find-delete :
      (k : K) (p : R → Bool) (s : List R) (r : R)
      → (find k (keep (λ x. not (p x)) (rows s)) ≡ some r → (find k s ≡ some r) × (p r ≡ false))
        × (find k s ≡ some r → p r ≡ false → find k (keep (λ x. not (p x)) (rows s)) ≡ some r)
  find-delete k p s r = (left, right)
    where
      left : find k (keep (λ x. not (p x)) (rows s)) ≡ some r → (find k s ≡ some r) × (p r ≡ false)
      left h =
          let (m, stays) = keep_sound (λ x. not (p x)) r (rows s) (IsIn-find k r _ h) in
          (rw (find-key k _ r h) at (find-rows r s m), ground arith)

      right : find k s ≡ some r → p r ≡ false → find k (keep (λ x. not (p x)) (rows s)) ≡ some r
      right h fails = rw (find-key k s r h) at (
          find-IsIn r _ (keep-Distinct key _ (rows s) (rows-Distinct s))
            (keep_complete (λ x. not (p x)) r (rows s) (rows-find k r s h) (ground arith)))

module _ {K R : Type 0} ⦃e : Comparable K⦄ (key : R → K) (clash : R → R → Bool)
    (valid : R → Bool) where
  -- The rows that meet the CHECK constraints; `insert` and `flush` add no other.
  abbrev pub sound : List R → List R
  sound s = keep valid s

  abbrev pub add_row : R → List R → Option (List R)
  add_row r s = if valid r then some (r ∷ s) else none

  abbrev pub add_new : R → List R → Option (List R)
  add_new r s =
      if valid r && not (any (λ x. clash x r) (rows key (sound s))) then some (r ∷ s) else none

  pub add_row-find :
      (k : K) (r : R) (s t : List R)
      → add_row r s ≡ some t
      → find key k (sound t) ≡ (if key r == k then some r else find key k (sound s))
  add_row-find k r s t h = ground arith

  pub add_new-find :
      (k : K) (r : R) (s t : List R)
      → add_new r s ≡ some t
      → find key k (sound t) ≡ (if key r == k then some r else find key k (sound s))
  add_new-find k r s t h = ground arith

  pub add_new_unique :
      (k : K) (r x : R) (s t : List R)
      → add_new r s ≡ some t
      → find key k (sound s) ≡ some x
      → clash x r ≡ false
  add_new_unique k r x s t h found =
      any-false (λ y. clash y r) x (rows key (sound s)) (ground arith)
        (rows-find key k x (sound s) found)

  pub add_new_accepts :
      (r : R) (s : List R)
      → valid r ≡ true
      → ((k : K) (x : R) → find key k (sound s) ≡ some x → clash x r ≡ false)
      → is_some (add_new r s) ≡ true
  add_new_accepts r s v free = elim (Bool-cases (any (λ y. clash y r) (rows key (sound s)))) [
    | inl hit ↦
        let (x, m, bad) = any-true (λ y. clash y r) (rows key (sound s)) hit in
        cc (free (key x) x (find-rows key x (sound s) m))
    | inr fresh ↦ rw (v, fresh)
  ]

  pub find_valid : (k : K) (s : List R) (r : R) → find key k (sound s) ≡ some r → valid r ≡ true
  find_valid k s r h = (keep_sound valid r s (IsIn-find key k r (sound s) h)).1

  pub add_row_iff : (r : R) (s : List R) → is_some (add_row r s) ≡ valid r
  add_row_iff r s = ground arith

  kept_sound :
      (p : R → Bool) (s : List R)
      → sound (keep (λ x. not (p x)) (rows key (sound s)))
        ≡ keep (λ x. not (p x)) (rows key (sound s))
  kept_sound p s = keep_all valid _ λ x m.
      find_valid (key x) s x
        (find-rows key x (sound s) (keep_sound (λ y. not (p y)) x (rows key (sound s)) m).0)

  pub remaining-find :
      (k : K) (p : R → Bool) (s : List R) (r : R)
      → (find key k (sound (keep (λ x. not (p x)) (rows key (sound s)))) ≡ some r
          → (find key k (sound s) ≡ some r) × (p r ≡ false))
        × (find key k (sound s) ≡ some r
            → p r ≡ false
            → find key k (sound (keep (λ x. not (p x)) (rows key (sound s)))) ≡ some r)
  remaining-find k p s r = rw (kept_sound p s) (find-delete key k p (sound s) r)

  abbrev pub list_table : Table K R key clash valid
  list_table = record {
    State = List R;
    get = λ k s. find key k (sound s);
    first = λ p s. first_row key p (sound s);
    select = λ p s. keep p (rows key (sound s));
    insert = add_new;
    flush = add_row;
    delete =
        λ p s. (length (keep p (rows key (sound s))), keep (λ x. not (p x)) (rows key (sound s)));
    get_key = λ k s. find-key key k (sound s);
    get_valid = find_valid;
    first_sound = λ p s. first_sound key p (sound s);
    first_complete = λ p s. first_complete key p (sound s);
    select_sound = λ p s. select_sound key p (sound s);
    select_complete = λ p s. select_complete key p (sound s);
    select_distinct = λ p s. keep-Distinct key p (rows key (sound s)) (rows-Distinct key (sound s));
    get-insert = add_new-find;
    insert_unique = add_new_unique;
    insert_accepts = add_new_accepts;
    get-flush = add_row-find;
    flush_iff = add_row_iff;
    get-delete = remaining-find;
    delete_count = λ p s. refl;
  }
