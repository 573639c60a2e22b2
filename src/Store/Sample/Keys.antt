-- ===== src/Store/Sample/Keys.antt =====
-- Redis as functions from keys: a sample of each interface.
use schedora.Base.{
  ℕ, ◌+◌, ◌*◌, String, Bool, true, false, Option, none, some, List, [], ◌∷◌, ◌≡◌, ◌≢◌, ◌↔◌, refl,
  ap, ◌∙◌, eq_self, inl, inr, IsIn, ◌==◌, ltb, if◌then◌else◌, length, ◌&&◌, not, keep, head_of,
  tail_of, any, is_some, nat_eq, string_eq, arith, Bool-cases, eq→≡, ne→eq_false,
}
use schedora.Store.{Entry, QueueStore, PresenceStore, place, without}

-- A function changed at one key.
abbrev pub at : {A : Type 0} → String → A → (String → A) → String → A
at l a f k = if l == k then a else f k

pub record Queues : Type 0 where
  pub zsets : String → List Entry
  pub hashes : String → List (ℕ × String)

abbrev pub field : ℕ → List (ℕ × String) → Option String
field f [] = none
field f ((g, v) ∷ l) = if g == f then some v else field f l

abbrev pub put : ℕ → String → List (ℕ × String) → List (ℕ × String)
put f v [] = (f, v) ∷ []
put f v ((g, w) ∷ l) = if g == f then (f, v) ∷ l else (g, w) ∷ put f v l

field-put :
    (f g : ℕ) (v : String) (l : List (ℕ × String))
    → field f (put g v l) ≡ (if g == f then some v else field f l)
field-put f g v [] = refl
field-put f g v ((h, w) ∷ l) = ground (arith, field-put f g v l)

length-put :
    (f : ℕ) (v : String) (l : List (ℕ × String))
    → length (put f v l) ≡ (if is_some (field f l) then length l else length l + 1)
length-put f v [] = omega arith
length-put f v ((g, w) ∷ l) = ground (arith, length-put f v l)

-- Changing the value at `l` by `g` changes what is read at `l` alone.
pub at_self :
    {A : Type 0} (k l : String) (g : A → A) (f : String → A)
    → at l (g (f l)) f k ≡ (if l == k then g (f k) else f k)
at_self k l g f = elim (Bool-cases (l == k)) [
  | inl same ↦ rw (same, eq→≡ l k same)
  | inr other ↦ rw other
]

at_ne : {A : Type 0} (k l : String) (a : A) (f : String → A) → l ≢ k → at l a f k ≡ f k
at_ne k l a f h = rw (ne→eq_false l k h)

pub field-at :
    (k l : String) (f g : ℕ) (v : String) (h : String → List (ℕ × String))
    → field f (at l (put g v (h l)) h k) ≡ (if l == k && g == f then some v else field f (h k))
field-at k l f g v h = ap (field f) (at_self k l (put g v) h) ∙ elim (Bool-cases (l == k)) [
  | inl same ↦ rw (same, field-put f g v (h k))
  | inr other ↦ rw other
]

pub field-at_delete :
    (k l : String) (f : ℕ) (h : String → List (ℕ × String))
    → field f (at l [] h k) ≡ (if l == k then none else field f (h k))
field-at_delete k l f h = ground arith

pub length-at_delete :
    (k l : String) (h : String → List (ℕ × String))
    → length (at l [] h k) ≡ (if l == k then 0 else length (h k))
length-at_delete k l h = ground arith

pub length-at-put :
    (k : String) (f : ℕ) (v : String) (h : String → List (ℕ × String))
    → length (at k (put f v (h k)) h k)
      ≡ (if is_some (field f (h k)) then length (h k) else length (h k) + 1)
length-at-put k f v h = rw (eq_self k, length-put f v (h k))

abbrev pub map_queues : QueueStore
map_queues = record {
  State = Queues;
  zset = λ k s. s.zsets k;
  hash = λ k f s. field f (s.hashes k);
  zadd = λ k a s. record s { zsets = at k (place a (without a.member (s.zsets k))) s.zsets };
  zpopmax = λ k s. (head_of (s.zsets k), record s { zsets = at k (tail_of (s.zsets k)) s.zsets });
  zrem = λ k m s. (
    (if any (λ x. x.member == m) (s.zsets k) then 1 else 0),
    record s { zsets = at k (without m (s.zsets k)) s.zsets },
  );
  zcard = λ k s. length (s.zsets k);
  hset = λ k f v s. record s { hashes = at k (put f v (s.hashes k)) s.hashes };
  hlen = λ k s. length (s.hashes k);
  delete = λ k s. record { zsets = at k [] s.zsets; hashes = at k [] s.hashes };
  zset-zadd = λ k l a s. at_self k l (λ z. place a (without a.member z)) s.zsets;
  zpopmax_head = λ k s. refl;
  zset-zpopmax = λ k l s. at_self k l tail_of s.zsets;
  zrem_count = λ k m s. refl;
  zset-zrem = λ k l m s. at_self k l (without m) s.zsets;
  zcard-zset = λ k s. refl;
  zset-hset = λ k l f v s h. refl;
  zset-delete = λ k l s. refl;
  hash-hset = λ k l f g v s. field-at k l f g v s.hashes;
  hash-zrem = λ k l f m s h. refl;
  hash-zadd = λ k l f a s h. refl;
  hash-delete = λ k l f s. field-at_delete k l f s.hashes;
  hlen-hset = λ k f v s. length-at-put k f v s.hashes;
  hlen-zrem = λ k l m s h. refl;
  hlen-delete = λ k l s. length-at_delete k l s.hashes;
}

-- A set is its list of members; a key with a time to live has the time at which it expires.
pub record Presence : Type 0 where
  pub sets : String → List ℕ
  pub expires : String → ℕ

abbrev pub has : ℕ → List ℕ → Bool
has m l = any (λ x. x == m) l

pub has_iff : (m : ℕ) (l : List ℕ) → IsIn m l ↔ (has m l ≡ true)
has_iff m l = (into m l, from m l)
  where
    into : (m : ℕ) (l : List ℕ) → IsIn m l → has m l ≡ true
    into m [] h = elim h [ ]
    into m (x ∷ l) h = ground (arith, into m l)

    from : (m : ℕ) (l : List ℕ) → has m l ≡ true → IsIn m l
    from m [] h = cc
    from m (x ∷ l) h = ground (arith, from m l)

has-remove :
    (m n : ℕ) (l : List ℕ)
    → has m (keep (λ x. not (x == n)) l) ≡ (if n == m then false else has m l)
has-remove m n [] = ground arith
has-remove m n (x ∷ l) = ground (arith, has-remove m n l)

pub has-at :
    (k l : String) (m n : ℕ) (f : String → List ℕ)
    → has m (at l (n ∷ f l) f k) ≡ (if l == k && n == m then true else has m (f k))
has-at k l m n f = ap (has m) (at_self k l (λ z. n ∷ z) f) ∙ ground arith

pub has-at_remove :
    (k l : String) (m n : ℕ) (f : String → List ℕ)
    → has m (at l (keep (λ x. not (x == n)) (f l)) f k)
      ≡ (if l == k && n == m then false else has m (f k))
has-at_remove k l m n f =
    ap (has m) (at_self k l (keep (λ x. not (x == n))) f) ∙ ground (arith, has-remove m n (f k))

pub has-at_delete :
    (k l : String) (m : ℕ) (f : String → List ℕ)
    → has m (at l [] f k) ≡ (if l == k then false else has m (f k))
has-at_delete k l m f = ground arith

pub expires-at :
    (k l : String) (now t : ℕ) (f : String → ℕ)
    → ltb now (at l t f k) ≡ (if l == k then ltb now t else ltb now (f k))
expires-at k l now t f = ground arith

pub expires-at_delete :
    (k l : String) (now : ℕ) (f : String → ℕ)
    → ltb now (at l 0 f k) ≡ (if l == k then false else ltb now (f k))
expires-at_delete k l now f = ground arith

abbrev pub map_presence : PresenceStore
map_presence = record {
  State = Presence;
  sismember = λ k m s. has m (s.sets k);
  smembers = λ k s. s.sets k;
  exists = λ k now s. ltb now (s.expires k);
  sadd = λ k m s. record s { sets = at k (m ∷ s.sets k) s.sets };
  srem = λ k m s. record s { sets = at k (keep (λ x. not (x == m)) (s.sets k)) s.sets };
  setex = λ k ttl now s. record s { expires = at k (now + ttl * 1_000_000) s.expires };
  delete = λ k s. record { sets = at k [] s.sets; expires = at k 0 s.expires };
  smembers_iff = λ k m s. has_iff m (s.sets k);
  sismember-sadd = λ k l m n s. has-at k l m n s.sets;
  sismember-srem = λ k l m n s. has-at_remove k l m n s.sets;
  sismember-delete = λ k l m s. has-at_delete k l m s.sets;
  sismember-setex = λ k l m ttl now s h. refl;
  exists-setex = λ k l ttl t now s h. expires-at k l now (t + ttl * 1_000_000) s.expires;
  exists-delete = λ k l now s. expires-at_delete k l now s.expires;
  exists-sadd = λ k l n now s h. refl;
}
