-- ===== src/Connections/Singletons.antt =====
-- core/redis.py: whatever is called, no client is lost.
use mathlib.Core.Path.{subst}
use schedora.Base.{
  ℕ, ◌<◌, none, some, List, [], ◌∷◌, Option-cases, ◌≡◌, ◌≢◌, ◌==◌, ◌↔◌, ◌⊎◌, inl, inr, IsIn, nat_eq,
  not, keep, keep_sound, keep_complete, arith,
}
use schedora.Connections.{
  Clients, no_clients, get_redis, get_async_redis, close_redis, close_async_redis,
}

pub data Call : Type 0 where
  get get_async close close_async : Call

abbrev pub call : Call → Clients → Clients
call get c = (get_redis c).1
call get_async c = (get_async_redis c).1
call close c = close_redis c
call close_async c = close_async_redis c

abbrev pub calls : List Call → Clients → Clients
calls [] c = c
calls (x ∷ xs) c = calls xs (call x c)

-- The clients that were not closed are those of the two globals, which are different.
pub record IsTidy (c : Clients) : Type 0 where
  pub held :
      (k : ℕ) → IsIn k c.unclosed ↔ ((c.redis_client ≡ some k) ⊎ (c.async_redis_client ≡ some k))
  pub old : (k : ℕ) → IsIn k c.unclosed → k < c.made
  pub apart : (k : ℕ) → c.redis_client ≡ some k → ¬ (c.async_redis_client ≡ some k)

kept_iff : (k x : ℕ) (l : List ℕ) → IsIn x (keep (λ y. not (y == k)) l) ↔ (IsIn x l × (x ≢ k))
kept_iff k x l = (
  λ i. let (m, other) = keep_sound (λ y. not (y == k)) x l i in (m, ground (arith, other)),
  λ (m, other). keep_complete (λ y. not (y == k)) x l m (ground (arith, other)),
)

get_redis-IsTidy : (c : Clients) → IsTidy c → IsTidy (get_redis c).1
unfolding get_redis
get_redis-IsTidy c tidy = elim (Option-cases c.redis_client) [
  | inr (k, there) ↦
      let same : c ≡ (get_redis c).1 = ground (arith, there) in subst IsTidy same tidy
  | inl gone ↦ record {
    held = λ k. ground (arith, tidy.held k, gone);
    old = λ k i. ground (arith, tidy.old k, tidy.old c.made, gone);
    apart = λ k e f. ground (arith, tidy.held k, tidy.old k, gone);
  }
]

get_async_redis-IsTidy : (c : Clients) → IsTidy c → IsTidy (get_async_redis c).1
unfolding get_async_redis
get_async_redis-IsTidy c tidy = elim (Option-cases c.async_redis_client) [
  | inr (k, there) ↦
      let same : c ≡ (get_async_redis c).1 = ground (arith, there) in subst IsTidy same tidy
  | inl gone ↦ record {
    held = λ k. ground (arith, tidy.held k, gone);
    old = λ k i. ground (arith, tidy.old k, tidy.old c.made, gone);
    apart = λ k e f. ground (arith, tidy.held k, tidy.old k, gone);
  }
]

close_redis-IsTidy : (c : Clients) → IsTidy c → IsTidy (close_redis c)
unfolding close_redis
close_redis-IsTidy c tidy = elim (Option-cases c.redis_client) [
  | inl gone ↦ let same : c ≡ close_redis c = ground (arith, gone) in subst IsTidy same tidy
  | inr (k, there) ↦
      let after : record c { redis_client = none; unclosed = keep (λ y. not (y == k)) c.unclosed }
          ≡ close_redis c =
        ground (arith, there) in
      subst IsTidy after (record {
        held =
            λ x. ground (arith, kept_iff k x c.unclosed, tidy.held x, tidy.apart x, tidy.apart k);
        old = λ x i. tidy.old x ((kept_iff k x c.unclosed).0 i).0;
        apart = λ x e f. ground (arith, e, f);
      })
]

close_async_redis-IsTidy : (c : Clients) → IsTidy c → IsTidy (close_async_redis c)
unfolding close_async_redis
close_async_redis-IsTidy c tidy = elim (Option-cases c.async_redis_client) [
  | inl gone ↦ let same : c ≡ close_async_redis c = ground (arith, gone) in subst IsTidy same tidy
  | inr (k, there) ↦
      let after : record c {
        async_redis_client = none;
        unclosed = keep (λ y. not (y == k)) c.unclosed;
      }
          ≡ close_async_redis c =
        ground (arith, there) in
      subst IsTidy after (record {
        held =
            λ x. ground (arith, kept_iff k x c.unclosed, tidy.held x, tidy.apart x, tidy.apart k);
        old = λ x i. tidy.old x ((kept_iff k x c.unclosed).0 i).0;
        apart = λ x e f. ground (arith, e, f);
      })
]

call-IsTidy : (x : Call) (c : Clients) → IsTidy c → IsTidy (call x c)
call-IsTidy get c tidy = get_redis-IsTidy c tidy
call-IsTidy get_async c tidy = get_async_redis-IsTidy c tidy
call-IsTidy close c tidy = close_redis-IsTidy c tidy
call-IsTidy close_async c tidy = close_async_redis-IsTidy c tidy

calls_keep : (xs : List Call) (c : Clients) → IsTidy c → IsTidy (calls xs c)
calls_keep [] c tidy = tidy
calls_keep (x ∷ xs) c tidy = calls_keep xs (call x c) (call-IsTidy x c tidy)

none_yet : IsTidy no_clients
none_yet = record {
  held = λ k. ground arith;
  old = λ k i. absurd i;
  apart = λ k e f. ground (arith, e);
}

-- After any calls of the four functions, in any order, the clients that were made and not closed are
-- those that the two globals hold, which are different; so none is lost without being closed.
pub calls-IsTidy : (xs : List Call) → IsTidy (calls xs no_clients)
calls-IsTidy xs = calls_keep xs no_clients none_yet
