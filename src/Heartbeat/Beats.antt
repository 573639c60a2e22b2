-- ===== src/Heartbeat/Beats.antt =====
-- services/heartbeat_service.py: a heartbeat.
use schedora.Base.{
  ℕ, ◌+◌, ◌*◌, ◌≤◌, String, Option, some, ◌≡◌, ◌==◌, if◌then◌else◌, sym, ◌∙◌, ap, arith,
  ne→eq_false, eq→≡, ≡→eq, ltb, Option-cases, inl, inr, Bool-cases, string_eq,
}
use schedora.Enums.{worker_status_eq}
use schedora.Errors.{ok}
use schedora.Models.{JobTable, Worker, WorkerTable}
use schedora.Store.{PresenceStore}
use schedora.Store.Laws.{first-key, flush_some}
use schedora.Heartbeat.{Service, heartbeat_key, beat, given_or, get_worker, send_heartbeat}
use schedora.Heartbeat.Keys.{keys-injective}

-- Two heartbeat keys are equal exactly when the workers are.
heartbeat_key-eq : (a b : String) → heartbeat_key a == heartbeat_key b ≡ (a == b)
heartbeat_key-eq a b = elim (Bool-cases (a == b)) [
  | inl same ↦
      ≡→eq (heartbeat_key a) (heartbeat_key b) (ap heartbeat_key (eq→≡ a b same)) ∙ sym same
  | inr other ↦
      ne→eq_false (heartbeat_key a) (heartbeat_key b)
        (keys-injective a b (λ same. cc (≡→eq a b same, other))).0
      ∙ sym other
]

module _ (jobs : JobTable) (workers : WorkerTable) (presence : PresenceStore) (timeout : ℕ) where
  open workers use {
    State, get, insert, flush, get_key, get_valid, get-insert, get-flush, insert_unique,
    insert_accepts, select, delete_count, get-delete,
  }
  open presence use {
    delete, sismember, exists, setex, exists-setex, exists-delete, sismember-delete,
    sismember-setex,
  }

  -- A heartbeat never raises. The key of the worker lives exactly until the timeout has passed, and
  -- the keys of other workers stay. The row of the worker, if there is one, gets the time and the
  -- given measurements and keeps its status, so a STALE worker stays STALE; other rows stay.
  pub send_heartbeat_lem :
      (w : String) (t0 : ℕ) (cpu memory : Option ℕ) (s : Service jobs workers presence timeout)
      → (u : Service jobs workers presence timeout) × (send_heartbeat jobs workers presence timeout
            w t0 cpu memory s
          ≡ (ok tt, u))
        × ((v : String) (now : ℕ)
            → t0 ≤ now
            → exists (heartbeat_key v) now u.redis ≡ (
                if w == v
                then ltb now (t0 + timeout * 1_000_000)
                else exists (heartbeat_key v) now s.redis))
        × ((k : String) (x : Worker)
            → get k s.worker_rows ≡ some x
            → get k u.worker_rows
              ≡ some (
                  if w == k
                  then record x {
                    last_heartbeat_at = some t0;
                    cpu_percent = given_or cpu x.cpu_percent;
                    memory_percent = given_or memory x.memory_percent;
                  }
                  else x))
  unfolding send_heartbeat get_worker
  send_heartbeat_lem w t0 cpu memory s = elim (Option-cases (get w s.worker_rows)) [
    | inl gone ↦ (
      record s { redis = after },
      ground (arith, first-key workers w s.worker_rows),
      alive,
      λ k x found. found ∙ rw (ne→eq_false w k (λ same. cc)),
    )
    | inr (x, found) ↦
        let (t, done) =
          flush_some workers (beat jobs workers presence timeout t0 cpu memory x) s.worker_rows
            (get_valid w s.worker_rows x found) in
        (
          record s { worker_rows = t; redis = after },
          ground (arith, first-key workers w s.worker_rows, done),
          alive,
          λ k y held.
              get-flush k (beat jobs workers presence timeout t0 cpu memory x) s.worker_rows t done
              ∙ ap
                  (λ i.
                    if i == k
                    then some (beat jobs workers presence timeout t0 cpu memory x)
                    else get k s.worker_rows)
                  (get_key w s.worker_rows x found)
              ∙ choose x y k found held,
        )
  ]
    where
      choose :
          (x y : Worker) (k : String)
          → get w s.worker_rows ≡ some x
          → get k s.worker_rows ≡ some y
          → (if w == k
              then some (beat jobs workers presence timeout t0 cpu memory x)
              else get k s.worker_rows)
            ≡ some (if w == k then beat jobs workers presence timeout t0 cpu memory y else y)
      choose x y k found held = elim (Bool-cases (w == k)) [
        | inl hit ↦ let one : x ≡ y = cc (eq→≡ w k hit) in rw (hit, one)
        | inr miss ↦ rw miss held
      ]

      after : presence.State
      after = setex (heartbeat_key w) timeout t0 s.redis

      alive :
          (v : String) (now : ℕ)
          → t0 ≤ now
          → exists (heartbeat_key v) now (setex (heartbeat_key w) timeout t0 s.redis) ≡ (
              if w == v
              then ltb now (t0 + timeout * 1_000_000)
              else exists (heartbeat_key v) now s.redis)
      alive v now later =
          exists-setex (heartbeat_key v) (heartbeat_key w) timeout t0 now s.redis later
          ∙ rw (heartbeat_key-eq w v)
