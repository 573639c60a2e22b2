-- ===== src/Jobs/Create.antt =====
-- services/job_service.py: `create_job`, against whatever other sessions commit between its check
-- and its INSERT.
use schedora.Base.{
  refl, ltb, ℕ, Bool, true, false, Option, none, some, ◌≡◌, ◌≢◌, ◌==◌, sym, ◌∙◌, ap, nat_eq,
  string_eq, arith, if◌then◌else◌, ◌⊎◌, inl, inr, Option-cases, ◌||◌, Bool-cases, is_some, ≡→eq,
  eq→≡, ne→eq_false,
}
use schedora.Enums.{pending, scheduled, job_status_eq}
use schedora.Errors.{
  Error, type_error, data_error, ok, err, duplicate_idempotency_key, integrity_error,
}
use schedora.Models.{Job, JobTable, check_job}
use schedora.Store.{QueueStore}
use schedora.Queue.{RedisQueue}
use schedora.Jobs.{
  World, JobCreate, Datetime, fault, new_job, initial_status, get_by_idempotency_key, create_job,
  enqueue_if_pending,
}
use schedora.Jobs.Queueing.{redis_enqueued, enqueue_if_pending_lem}
use schedora.Jobs.Repository.{get_by_idempotency_key_sound, get_by_idempotency_key-some}

fault-cases :
    (at : Option Datetime) (job : Job)
    → (fault at job ≡ none) ⊎ (fault at job ≡ some type_error) ⊎ (fault at job ≡ some data_error)
fault-cases at job = ground arith

module _ (jobs : JobTable) (store : QueueStore) (queue : Option RedisQueue)
    (job_id now flushed_at : ℕ) (others : jobs.State → jobs.State) (names_key : Bool)
    (d : JobCreate) (w : World jobs store) where
  open jobs use {State, get, insert, get-insert, get_key, insert_unique, insert_accepts}

  -- What a call does, by whether the key was found, and by the INSERT.
  pub data Created : Type 0 where
    known :
        (x : Job)
        → get_by_idempotency_key jobs d.idempotency_key w.db ≡ some x
        → create_job jobs store queue job_id now flushed_at others names_key d w
          ≡ (err duplicate_idempotency_key, w)
        → Created
    refused :
        fault d.scheduled_at (new_job job_id now flushed_at d) ≡ none
        → get_by_idempotency_key jobs d.idempotency_key w.db ≡ none
        → insert (new_job job_id now flushed_at d) (others w.db) ≡ none
        → create_job jobs store queue job_id now flushed_at others names_key d w ≡ (
          (if names_key then err duplicate_idempotency_key else err integrity_error),
          record w { db = others w.db },
        )
        → Created
    broken :
        (e : Error)
        → get_by_idempotency_key jobs d.idempotency_key w.db ≡ none
        → fault d.scheduled_at (new_job job_id now flushed_at d) ≡ some e
        → (e ≡ type_error) ⊎ (e ≡ data_error)
        → create_job jobs store queue job_id now flushed_at others names_key d w
          ≡ (err e, record w { db = others w.db })
        → Created
    added :
        (t : State)
        → fault d.scheduled_at (new_job job_id now flushed_at d) ≡ none
        → get_by_idempotency_key jobs d.idempotency_key w.db ≡ none
        → insert (new_job job_id now flushed_at d) (others w.db) ≡ some t
        → create_job jobs store queue job_id now flushed_at others names_key d w ≡ (
          ok (new_job job_id now flushed_at d),
          enqueue_if_pending jobs store queue
              (initial_status now d.scheduled_at)
              (new_job job_id now flushed_at d)
              (record w { db = t }),
        )
        → Created

  pub create_job-Created : Created
  unfolding create_job new_job
  create_job-Created = elim (Option-cases (get_by_idempotency_key jobs d.idempotency_key w.db)) [
    | inr (x, e) ↦ known x e (ground arith)
    | inl e ↦ elim (fault-cases d.scheduled_at (new_job job_id now flushed_at d)) [
      | inl clean ↦ elim (Option-cases (insert (new_job job_id now flushed_at d) (others w.db))) [
        | inl f ↦ refused clean e f (ground arith)
        | inr (t, f) ↦ added t clean e f (ground arith)
      ]
      | inr (inl wrong) ↦ broken type_error e wrong (inl refl) (ground arith)
      | inr (inr wrong) ↦ broken data_error e wrong (inr refl) (ground arith)
    ]
  ]

  -- A time was given, and it is in the future.
  abbrev pub is_later : Option Datetime → Bool
  is_later none = false
  is_later (some at) = ltb now at.instant

  later_status :
      (at : Option Datetime) → initial_status now at ≡ (if is_later at then scheduled else pending)
  later_status none = refl
  later_status (some at) = refl

  -- A job that is created is the request with the defaults, with no retry yet, and SCHEDULED if its time
  -- lies in the future, otherwise PENDING. It is in the table, where no other row has its idempotency
  -- key; all other rows are those that the other sessions left. It is enqueued with its priority if it
  -- is PENDING and there is a queue, and nothing else is written.
  pub create_job-ok :
      (c : Job)
      → (create_job jobs store queue job_id now flushed_at others names_key d w).0 ≡ ok c
      → (t : State) × (c ≡ new_job job_id now flushed_at d)
        × ((create_job jobs store queue job_id now flushed_at others names_key d w).1 ≡ record {
          db = t;
          redis = redis_enqueued jobs store queue (c.status == pending) job_id d.priority w.redis;
        })
        × (c.status ≡ (if is_later d.scheduled_at then scheduled else pending))
        × (c.retry_count ≡ 0)
        × ((k : ℕ) → get k t ≡ (if job_id == k then some c else get k (others w.db)))
        × ((k : ℕ) (x : Job)
            → get k t ≡ some x
            → x.idempotency_key ≡ d.idempotency_key
            → k ≡ job_id)
  unfolding new_job
  create_job-ok c h = elim create_job-Created [
    | known x _ e ↦ absurd (ground arith)
    | refused _ _ _ e ↦ absurd (ground arith)
    | broken _ _ _ _ e ↦ absurd (ground arith)
    | added t _ free done e ↦
        let same : c ≡ new_job job_id now flushed_at d = ground arith in
        (
          t,
          same,
          ap (λ r. r.1) e
              ∙ enqueue_if_pending_lem jobs store queue (initial_status now d.scheduled_at)
                  (new_job job_id now flushed_at d) (record w { db = t })
              ∙ rw same refl,
          ap (λ r. r.status) same ∙ later_status d.scheduled_at,
          ap (λ r. r.retry_count) same,
          λ k. get-insert k (new_job job_id now flushed_at d) (others w.db) t done ∙ ground arith,
          λ k x found key. elim (Bool-cases (job_id == k)) [
            | inl hit ↦ sym (eq→≡ job_id k hit)
            | inr miss ↦
                let row = get-insert k (new_job job_id now flushed_at d) (others w.db) t done in
                let old : get k (others w.db) ≡ some x = ground arith in
                let unique = insert_unique k (new_job job_id now flushed_at d) x _ t done old in
                absurd (ground (arith, ≡→eq x.idempotency_key d.idempotency_key key))
          ],
        )
  ]

  -- A request whose idempotency key a row has already raises DuplicateIdempotencyKeyError, and changes
  -- nothing.
  pub create_job_known :
      (k : ℕ) (x : Job)
      → get k w.db ≡ some x
      → x.idempotency_key ≡ d.idempotency_key
      → create_job jobs store queue job_id now flushed_at others names_key d w
        ≡ (err duplicate_idempotency_key, w)
  create_job_known k x found key =
      let (y, hit) = get_by_idempotency_key-some jobs d.idempotency_key w.db k x found key in
      elim create_job-Created [
        | known _ _ e ↦ e
        | refused _ missed _ _ ↦ absurd (cc hit)
        | broken _ missed _ _ _ ↦ absurd (cc hit)
        | added _ _ missed _ _ ↦ absurd (cc hit)
      ]

  -- A request with a new key and a fault raises it, and writes nothing.
  pub create_job_faulty :
      ((k : ℕ) (x : Job) → get k w.db ≡ some x → x.idempotency_key ≢ d.idempotency_key)
      → (e : Error) → fault d.scheduled_at (new_job job_id now flushed_at d) ≡ some e
      → (create_job jobs store queue job_id now flushed_at others names_key d w).0 ≡ err e
  create_job_faulty free e wrong = elim create_job-Created [
    | known x hit _ ↦
        let (found, key) = get_by_idempotency_key_sound jobs d.idempotency_key w.db x hit in
        absurd (free x.job_id x found key)
    | refused clean _ _ _ ↦ absurd (cc (clean, wrong))
    | broken x _ also _ run ↦
        let one : x ≡ e = cc (also, wrong) in ap (λ r. r.0) run ∙ ap (λ y. err y) one
    | added _ clean _ _ _ ↦ absurd (cc (clean, wrong))
  ]

  -- A request whose idempotency key and UUID no row has, not even one that other sessions commit
  -- between the check and the INSERT, whose values fit the columns and meet the CHECK constraints, and
  -- whose time, if there is one, has a timezone, is never refused.
  pub create_job_accepts :
      ((k : ℕ) (x : Job) → get k w.db ≡ some x → x.idempotency_key ≢ d.idempotency_key)
      → ((k : ℕ) (x : Job)
          → get k (others w.db) ≡ some x
          → (x.job_id ≢ job_id) × (x.idempotency_key ≢ d.idempotency_key))
      → check_job (new_job job_id now flushed_at d) ≡ true
      → fault d.scheduled_at (new_job job_id now flushed_at d) ≡ none
      → (create_job jobs store queue job_id now flushed_at others names_key d w).0
        ≡ ok (new_job job_id now flushed_at d)
  unfolding new_job
  create_job_accepts free free_others v clean = elim create_job-Created [
    | known x hit _ ↦
        let (found, key) = get_by_idempotency_key_sound jobs d.idempotency_key w.db x hit in
        absurd (free x.job_id x found key)
    | broken e _ wrong _ _ ↦ absurd (cc (clean, wrong))
    | refused _ _ none_in _ ↦ cc (
      insert_accepts (new_job job_id now flushed_at d) (others w.db) v no_clash,
      ap (λ o. is_some o) none_in,
    )
    | added t _ _ _ e ↦ ap (λ r. r.0) e
  ]
    where
      no_clash :
          (k : ℕ) (x : Job)
          → get k (others w.db) ≡ some x
          → (x.job_id == job_id) || (x.idempotency_key == d.idempotency_key) ≡ false
      no_clash k x found =
          let (other_id, other_key) = free_others k x found in
          rw (ne→eq_false x.job_id job_id other_id)
            (ne→eq_false x.idempotency_key d.idempotency_key other_key)
