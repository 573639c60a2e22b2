-- ===== src/Store.antt =====
-- What the code uses of SQLAlchemy over PostgreSQL, and of Redis: the operations, each with what its
-- documentation says of it. All else is written over any stores that keep these laws.
pub mod Laws
pub mod Sample
use schedora.Base.{
  ℕ, ◌+◌, String, Bool, true, false, Option, none, some, List, [], ◌∷◌, ◌≡◌, ◌≢◌, ◌⊎◌, IsIn,
  Comparable, ◌==◌, ltb, if◌then◌else◌, length, ◌&&◌, ◌||◌, not, keep, head_of, tail_of, nat_eq,
  string_eq, ◌≤◌, ◌*◌, any, is_some, ◌↔◌,
}

-- No two rows of the list have one key.
abbrev pub Distinct : {K R : Type 0} → (R → K) → List R → Type 0
Distinct key [] = Unit
Distinct key (x ∷ xs) = ((y : _) → IsIn y xs → key y ≢ key x) × Distinct key xs

-- A table of rows `R` with the primary key `key`, seen through a session that flushes. Two rows with
-- `clash` would share a unique column; `valid` is the conjunction of the CHECK constraints.
pub record Table (K R : Type 0) ⦃e : Comparable K⦄ (key : R → K) (clash : R → R → Bool)
    (valid : R → Bool) : Type 1 where
  pub State : Type 0
  -- The row with a primary key.
  pub get : K → State → Option R
  -- `query(R).filter(p).first()` and `query(R).filter(p).all()`. Without ORDER BY the order is open.
  pub first : (R → Bool) → State → Option R
  pub select : (R → Bool) → State → List R
  -- The INSERT of a new object, and the UPDATE of a row that was loaded; `none` is IntegrityError.
  pub insert : R → State → Option State
  pub flush : R → State → Option State
  -- `query(R).filter(p).delete()`: the number of rows deleted, and what is left.
  pub delete : (R → Bool) → State → ℕ × State
  pub get_key : (k : K) (s : State) (r : R) → get k s ≡ some r → key r ≡ k
  pub get_valid : (k : K) (s : State) (r : R) → get k s ≡ some r → valid r ≡ true
  pub first_sound :
      (p : R → Bool) (s : State) (r : R)
      → first p s ≡ some r
      → (get (key r) s ≡ some r) × (p r ≡ true)
  pub first_complete :
      (p : R → Bool) (s : State) (k : K) (r : R) → first p s ≡ none → get k s ≡ some r → p r ≡ false
  pub select_sound :
      (p : R → Bool) (s : State) (r : R)
      → IsIn r (select p s)
      → (get (key r) s ≡ some r) × (p r ≡ true)
  pub select_complete :
      (p : R → Bool) (s : State) (k : K) (r : R)
      → get k s ≡ some r
      → p r ≡ true
      → IsIn r (select p s)
  pub select_distinct : (p : R → Bool) (s : State) → Distinct key (select p s)
  pub get-insert :
      (k : K) (r : R) (s t : State)
      → insert r s ≡ some t
      → get k t ≡ (if key r == k then some r else get k s)
  pub insert_unique :
      (k : K) (r x : R) (s t : State) → insert r s ≡ some t → get k s ≡ some x → clash x r ≡ false
  pub insert_accepts :
      (r : R) (s : State)
      → valid r ≡ true
      → ((k : K) (x : R) → get k s ≡ some x → clash x r ≡ false)
      → is_some (insert r s) ≡ true
  pub get-flush :
      (k : K) (r : R) (s t : State)
      → flush r s ≡ some t
      → get k t ≡ (if key r == k then some r else get k s)
  pub flush_iff : (r : R) (s : State) → is_some (flush r s) ≡ valid r
  pub get-delete :
      (k : K) (p : R → Bool) (s : State) (r : R)
      → (get k (delete p s).1 ≡ some r → (get k s ≡ some r) × (p r ≡ false))
        × (get k s ≡ some r → p r ≡ false → get k (delete p s).1 ≡ some r)
  pub delete_count : (p : R → Bool) (s : State) → (delete p s).0 ≡ length (select p s)

-- An entry of a sorted set: a member (a UUID) and its score.
pub record Entry : Type 0 where
  pub member : ℕ
  pub score : ℕ

-- The order of a sorted set: by score, and by member where scores are equal.
abbrev pub before : Entry → Entry → Bool
before a b = ltb a.score b.score || (a.score == b.score && ltb a.member b.member)

abbrev pub without : ℕ → List Entry → List Entry
without m l = keep (λ x. not (x.member == m)) l

abbrev pub place : Entry → List Entry → List Entry
place a [] = a ∷ []
place a (x ∷ xs) = let rest = place a xs in if before x a then a ∷ x ∷ xs else x ∷ rest

-- The sorted sets and hashes of Redis. A sorted set is read from its highest entry down: `zset k s` is
-- what ZRANGE k 0 -1 REV WITHSCORES answers, empty where there is no such key.
pub record QueueStore : Type 1 where
  pub State : Type 0
  pub zset : String → State → List Entry
  -- `hash k f s` is the field `f` of the hash `k`.
  pub hash : String → ℕ → State → Option String
  pub zadd : String → Entry → State → State
  pub zpopmax : String → State → Option Entry × State
  pub zrem : String → ℕ → State → ℕ × State
  pub zcard : String → State → ℕ
  pub hset : String → ℕ → String → State → State
  pub hlen : String → State → ℕ
  pub delete : String → State → State
  pub zset-zadd :
      (k l : String) (a : Entry) (s : State)
      → zset k (zadd l a s) ≡ (if l == k then place a (without a.member (zset k s)) else zset k s)
  pub zpopmax_head : (k : String) (s : State) → (zpopmax k s).0 ≡ head_of (zset k s)
  pub zset-zpopmax :
      (k l : String) (s : State)
      → zset k (zpopmax l s).1 ≡ (if l == k then tail_of (zset k s) else zset k s)
  pub zrem_count :
      (k : String) (m : ℕ) (s : State)
      → (zrem k m s).0 ≡ (if any (λ x. x.member == m) (zset k s) then 1 else 0)
  pub zset-zrem :
      (k l : String) (m : ℕ) (s : State)
      → zset k (zrem l m s).1 ≡ (if l == k then without m (zset k s) else zset k s)
  pub zcard-zset : (k : String) (s : State) → zcard k s ≡ length (zset k s)
  pub zset-hset :
      (k l : String) (f : ℕ) (v : String) (s : State) → l ≢ k → zset k (hset l f v s) ≡ zset k s
  pub zset-delete :
      (k l : String) (s : State) → zset k (delete l s) ≡ (if l == k then [] else zset k s)
  pub hash-hset :
      (k l : String) (f g : ℕ) (v : String) (s : State)
      → hash k f (hset l g v s) ≡ (if l == k && g == f then some v else hash k f s)
  pub hash-zrem :
      (k l : String) (f m : ℕ) (s : State) → l ≢ k → hash k f (zrem l m s).1 ≡ hash k f s
  pub hash-zadd :
      (k l : String) (f : ℕ) (a : Entry) (s : State) → l ≢ k → hash k f (zadd l a s) ≡ hash k f s
  pub hash-delete :
      (k l : String) (f : ℕ) (s : State)
      → hash k f (delete l s) ≡ (if l == k then none else hash k f s)
  pub hlen-hset :
      (k : String) (f : ℕ) (v : String) (s : State)
      → hlen k (hset k f v s) ≡ (if is_some (hash k f s) then hlen k s else hlen k s + 1)
  pub hlen-zrem : (k l : String) (m : ℕ) (s : State) → l ≢ k → hlen k (zrem l m s).1 ≡ hlen k s
  pub hlen-delete :
      (k l : String) (s : State) → hlen k (delete l s) ≡ (if l == k then 0 else hlen k s)

-- The plain sets of Redis, and its keys with a time to live. Times are in microseconds, a time to
-- live is in seconds.
pub record PresenceStore : Type 1 where
  pub State : Type 0
  pub sismember : String → ℕ → State → Bool
  pub smembers : String → State → List ℕ
  pub exists : String → ℕ → State → Bool
  pub sadd : String → ℕ → State → State
  pub srem : String → ℕ → State → State
  pub setex : String → ℕ → ℕ → State → State
  pub delete : String → State → State
  pub smembers_iff :
      (k : String) (m : ℕ) (s : State) → IsIn m (smembers k s) ↔ (sismember k m s ≡ true)
  pub sismember-sadd :
      (k l : String) (m n : ℕ) (s : State)
      → sismember k m (sadd l n s) ≡ (if l == k && n == m then true else sismember k m s)
  pub sismember-srem :
      (k l : String) (m n : ℕ) (s : State)
      → sismember k m (srem l n s) ≡ (if l == k && n == m then false else sismember k m s)
  pub sismember-delete :
      (k l : String) (m : ℕ) (s : State)
      → sismember k m (delete l s) ≡ (if l == k then false else sismember k m s)
  pub sismember-setex :
      (k l : String) (m ttl now : ℕ) (s : State)
      → l ≢ k
      → sismember k m (setex l ttl now s) ≡ sismember k m s
  pub exists-setex :
      (k l : String) (ttl t now : ℕ) (s : State)
      → t ≤ now
      → exists k now (setex l ttl t s)
        ≡ (if l == k then ltb now (t + ttl * 1_000_000) else exists k now s)
  pub exists-delete :
      (k l : String) (now : ℕ) (s : State)
      → exists k now (delete l s) ≡ (if l == k then false else exists k now s)
  pub exists-sadd :
      (k l : String) (n now : ℕ) (s : State) → l ≢ k → exists k now (sadd l n s) ≡ exists k now s

-- The table `workflow_jobs` behind the relationship `Workflow.jobs`. Its primary key is the pair, and an
-- append writes a row for a new member only.
pub record Memberships : Type 1 where
  pub State : Type 0
  -- The ids of the jobs that are linked to a workflow.
  pub linked : ℕ → State → List ℕ
  pub append : ℕ → ℕ → State → State
  pub linked-append :
      (w v j k : ℕ) (s : State)
      → IsIn k (linked w (append v j s)) ↔ (IsIn k (linked w s) ⊎ ((v ≡ w) × (j ≡ k)))
  pub linked_distinct : (w : ℕ) (s : State) → Distinct (λ (k : ℕ). k) (linked w s)
