-- ===== src/Heartbeat/Leaving.antt =====
-- services/heartbeat_service.py: deregistration and clean-up.
use schedora.Base.{
  Option-cases, Bool-cases, inl, inr, ◌<◌, ◌+◌, ◌*◌, true, some, ◌↔◌, ℕ, ◌≤◌, String, false, ◌≡◌,
  ◌==◌, if◌then◌else◌, sym, ◌∙◌, ap, arith, eq_self, ne→eq_false, string_eq,
}
use schedora.Enums.{stopped, worker_status_eq}
use schedora.Errors.{ok}
use schedora.Models.{JobTable, Worker, WorkerTable, check_worker}
use schedora.Store.{PresenceStore}
use schedora.Store.Laws.{first-key, flush_some}
use schedora.Heartbeat.{
  Service, heartbeat_key, jobs_key, get_worker, deregister_worker, is_old,
  delete_old_stopped_workers, cleanup_old_workers,
}
use schedora.Heartbeat.Keys.{heartbeat-ne-jobs}

module _ (jobs : JobTable) (workers : WorkerTable) (presence : PresenceStore) (timeout : ℕ) where
  open workers use {
    State, get, insert, flush, get_key, get_valid, get-insert, get-flush, insert_unique,
    insert_accepts, select, delete_count, get-delete,
  }
  open presence use {
    delete, sismember, exists, setex, exists-setex, exists-delete, sismember-delete,
    sismember-setex,
  }

  stopped_valid :
      (x : Worker) (t0 now : ℕ)
      → check_worker x ≡ true
      → x.started_at ≡ some t0
      → t0 ≤ now
      → check_worker (record x { status = stopped; stopped_at = some now }) ≡ true
  stopped_valid x t0 now v started later = ground arith

  -- Deregistering never fails on a worker that is in the table and started at `t0`, not after
  -- `now`: its heartbeat and its set of jobs are gone, and its row is STOPPED since `now`. Every
  -- other row stays.
  pub deregister_worker_lem :
      (w : String) (t0 now : ℕ) (x : Worker) (s : Service jobs workers presence timeout)
      → get w s.worker_rows ≡ some x
      → x.started_at ≡ some t0
      → t0 ≤ now
      → (u : Service jobs workers presence timeout) × (deregister_worker jobs workers presence
            timeout w now s
          ≡ (ok tt, u))
        × ((k : String)
            → get k u.worker_rows ≡ (
                if w == k
                then some (record x { status = stopped; stopped_at = some now })
                else get k s.worker_rows))
        × ((i t : ℕ)
            → (exists (heartbeat_key w) t u.redis ≡ false)
              × (sismember (jobs_key w) i u.redis ≡ false))
  unfolding deregister_worker get_worker
  deregister_worker_lem w t0 now x s found started later =
      let gone : Worker = record x { status = stopped; stopped_at = some now } in
      let (t, done) =
        flush_some workers gone s.worker_rows
          (stopped_valid x t0 now (get_valid w s.worker_rows x found) started later) in
      (
        record s {
          worker_rows = t;
          redis = delete (jobs_key w) (delete (heartbeat_key w) s.redis);
        },
        ground (arith, first-key workers w s.worker_rows, done),
        λ k.
            get-flush k gone s.worker_rows t done
            ∙ ap (λ i. if i == k then some gone else get k s.worker_rows)
                (get_key w s.worker_rows x found),
        λ i t. (
          exists-delete (heartbeat_key w) (jobs_key w) t _
              ∙ rw (ne→eq_false (jobs_key w) (heartbeat_key w) (λ e. heartbeat-ne-jobs w w (sym e)))
                  (exists-delete (heartbeat_key w) (heartbeat_key w) t s.redis
                    ∙ rw (eq_self (heartbeat_key w))),
          sismember-delete (jobs_key w) (jobs_key w) i _ ∙ rw (eq_self (jobs_key w)),
        ),
      )

  -- The worker is STOPPED since more than `cleanup_after` seconds.
  abbrev pub IsOld : ℕ → ℕ → Worker → Type 0
  IsOld cleanup_after now x =
      (x.status ≡ stopped)
      × ((t : ℕ) × (x.stopped_at ≡ some t) × (t + cleanup_after * 1_000_000 < now))

  is_old_iff :
      (cleanup_after now : ℕ) (x : Worker)
      → (is_old cleanup_after now x ≡ true) ↔ IsOld cleanup_after now x
  is_old_iff cleanup_after now x = elim (Option-cases x.stopped_at) [
    | inl never ↦ (λ h. absurd (ground (arith, never)), λ (_, (t, e, _)). cc (never, e))
    | inr (t, e) ↦ (
      λ h. (ground (arith, e), (t, e, ground (arith, e))),
      λ (gone, (u, f, late)). let same : t ≡ u = ground (arith, e, f) in ground (arith, e, same),
    )
  ]

  -- Cleaning up keeps exactly the workers that are not STOPPED since more than the given seconds, as
  -- they are.
  pub cleanup_old_workers_lem :
      (cleanup_after now : ℕ) (s : Service jobs workers presence timeout) (k : String) (x : Worker)
      → (get k (cleanup_old_workers jobs workers presence timeout cleanup_after now s).1.worker_rows
          ≡ some x)
        ↔ ((get k s.worker_rows ≡ some x) × (¬ IsOld cleanup_after now x))
  unfolding cleanup_old_workers delete_old_stopped_workers
  cleanup_old_workers_lem cleanup_after now s k x =
      let (kept, keeps) = get-delete k (is_old cleanup_after now) s.worker_rows x in
      let (old, back) = is_old_iff cleanup_after now x in
      (
        λ h. let (found, young) = kept h in (found, λ o. cc (young, back o)),
        λ (found, young). keeps found (elim (Bool-cases (is_old cleanup_after now x)) [
          | inl hit ↦ absurd (young (old hit))
          | inr miss ↦ miss
        ]),
      )
