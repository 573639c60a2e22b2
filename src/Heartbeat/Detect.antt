-- ===== src/Heartbeat/Detect.antt =====
-- services/heartbeat_service.py: `detect_stale_workers`.
use schedora.Base.{
  ℕ, String, Bool, true, false, some, List, ◌≡◌, ◌≢◌, ◌==◌, ◌&&◌, if◌then◌else◌, IsIn, IsIn-map,
  IsIn-map_of, keep_sound, keep_complete, keep, map, sym, ◌∙◌, ap, refl, arith, and_true,
  Bool-cases, inl, inr, string_eq,
}
use schedora.Enums.{active, stale, worker_status_eq}
use schedora.Errors.{ok}
use schedora.Models.{JobTable, Worker, WorkerTable, check_worker}
use schedora.Store.{PresenceStore, Distinct}
use schedora.Store.Laws.{
  flush_all, flush_all-some, flush_all_self, flush_all_other, keep-Distinct, map-Distinct,
}
use schedora.Heartbeat.{Service, get_all_active, is_silent, as_stale, detect_stale_workers}

module _ (jobs : JobTable) (workers : WorkerTable) (presence : PresenceStore) (timeout now : ℕ)
    (s : Service jobs workers presence timeout) where
  open workers use {
    State, get, get_key, get_valid, select, select_sound, select_complete, select_distinct,
  }

  -- The worker is ACTIVE and its heartbeat key has expired.
  abbrev pub is_lost : Worker → Bool
  is_lost w = w.status == active && is_silent jobs workers presence timeout now s w

  abbrev lost_workers : List Worker
  lost_workers =
      keep (is_silent jobs workers presence timeout now s) (get_all_active workers s.worker_rows)

  abbrev written : List Worker
  written = map (as_stale jobs workers presence timeout) lost_workers

  lost_sound :
      (w : Worker)
      → IsIn w lost_workers
      → (get w.worker_id s.worker_rows ≡ some w) × (is_lost w ≡ true)
  unfolding get_all_active
  lost_sound w m =
      let (i, silent) = keep_sound (is_silent jobs workers presence timeout now s) w _ m in
      let (found, act) = select_sound (λ x. x.status == active) s.worker_rows w i in
      (found, ground arith)

  lost_complete :
      (k : String) (w : Worker)
      → get k s.worker_rows ≡ some w
      → is_lost w ≡ true
      → IsIn w lost_workers
  unfolding get_all_active
  lost_complete k w found lost =
      let (act, silent) = and_true _ _ lost in
      keep_complete (is_silent jobs workers presence timeout now s) w _
        (select_complete (λ x. x.status == active) s.worker_rows k w found act) silent

  written-Distinct : Distinct (λ (w : Worker). w.worker_id) written
  unfolding get_all_active
  written-Distinct =
      map-Distinct (λ w. w.worker_id) _ _ (λ w. refl)
        (keep-Distinct (λ w. w.worker_id) _ _
          (select_distinct (λ x. x.status == active) s.worker_rows))

  written_valid : (r : Worker) → IsIn r written → check_worker r ≡ true
  written_valid r m =
      let (w, i, same) = IsIn-map (as_stale jobs workers presence timeout) r lost_workers m in
      rw same (get_valid w.worker_id s.worker_rows w (lost_sound w i).0)

  not_this :
      (k : String) (w : Worker)
      → get k s.worker_rows ≡ some w
      → is_lost w ≡ false
      → (r : Worker) → IsIn r written
      → r.worker_id ≢ k
  not_this k w found well r m same_key =
      let (x, i, same) = IsIn-map (as_stale jobs workers presence timeout) r lost_workers m in
      let (held, lost) = lost_sound x i in
      let key : x.worker_id ≡ k = sym (ap (λ y. y.worker_id) same) ∙ same_key in
      let one : x ≡ w = cc (held, found, key) in cc (lost, well, ap is_lost one)

  row_after :
      (t : State) (k : String) (w : Worker)
      → flush_all workers written s.worker_rows ≡ some t
      → get k s.worker_rows ≡ some w
      → get k t ≡ some (if is_lost w then record w { status = stale } else w)
  row_after t k w done found = elim (Bool-cases (is_lost w)) [
    | inl lost ↦
        rw (lost, sym (get_key k s.worker_rows w found))
          (flush_all_self workers (record w { status = stale }) written s.worker_rows t
            written-Distinct (IsIn-map_of _ w _ (lost_complete k w found lost)) done)
    | inr well ↦
        rw well
          (flush_all_other workers k written s.worker_rows t done (not_this k w found well) ∙ found)
  ]

  -- A call never raises, and changes only the table of workers: each row that is ACTIVE and whose
  -- heartbeat key has expired becomes STALE, and every other row stays. It returns workers of that
  -- kind alone, as they are afterwards.
  pub detect_stale_workers_lem :
      (found : List Worker) × (t : State) × (detect_stale_workers jobs workers presence timeout now
          s
        ≡ (ok found, record s { worker_rows = t }))
      × ((k : String) (w : Worker)
          → get k s.worker_rows ≡ some w
          → get k t ≡ some (if is_lost w then record w { status = stale } else w))
      × ((r : Worker)
          → IsIn r found
          → (w : Worker) × (get w.worker_id s.worker_rows ≡ some w)
            × (is_lost w ≡ true)
            × (r ≡ record w { status = stale }))
      × ((w : Worker)
          → get w.worker_id s.worker_rows ≡ some w
          → is_lost w ≡ true
          → IsIn (record w { status = stale }) found)
  unfolding detect_stale_workers
  detect_stale_workers_lem =
      let (t, done) = flush_all-some workers written s.worker_rows written_valid in
      (
        written,
        t,
        rw (done, detect_stale_workers),
        λ k w. row_after t k w done,
        λ r m.
            let (w, i, same) = IsIn-map (as_stale jobs workers presence timeout) r lost_workers m in
            let (held, lost) = lost_sound w i in (w, held, lost, same),
        λ w held lost. IsIn-map_of _ w _ (lost_complete w.worker_id w held lost),
      )
