-- ===== src/Jobs/Repository.antt =====
-- repositories/job_repository.py: the lookups and `update_status`.
use schedora.Base.{
  ℕ, String, none, some, ◌≡◌, ◌≢◌, ◌==◌, ◌∙◌, nat_eq, string_eq, if◌then◌else◌, ≡→eq, eq→≡,
  Option-cases, inl, inr,
}
use schedora.Enums.{JobStatus}
use schedora.Errors.{ok, err, job_not_found}
use schedora.Models.{Job, JobTable}
use schedora.Store.Laws.{first-key, flush_some}
use schedora.Jobs.{get_by_id, get_by_idempotency_key, update_status}

module _ (jobs : JobTable) where
  open jobs use {State, get, flush, get_key, get_valid, get-flush, first_sound, first_complete}

  pub get_by_id-get : (k : ℕ) (s : State) → get_by_id jobs k s ≡ get k s
  unfolding get_by_id
  get_by_id-get k s = first-key jobs k s

  -- `get_by_idempotency_key` answers None exactly when no row has the key.
  pub get_by_idempotency_key-none :
      (key : String) (s : State) (k : ℕ) (j : Job)
      → get_by_idempotency_key jobs key s ≡ none
      → get k s ≡ some j
      → j.idempotency_key ≢ key
  unfolding get_by_idempotency_key
  get_by_idempotency_key-none key s k j h found same =
      cc (first_complete _ s k j h found, ≡→eq j.idempotency_key key same)

  pub get_by_idempotency_key_sound :
      (key : String) (s : State) (x : Job)
      → get_by_idempotency_key jobs key s ≡ some x
      → (get x.job_id s ≡ some x) × (x.idempotency_key ≡ key)
  unfolding get_by_idempotency_key
  get_by_idempotency_key_sound key s x h =
      let (found, same) = first_sound (λ j. j.idempotency_key == key) s x h in
      (found, eq→≡ x.idempotency_key key same)

  pub get_by_idempotency_key-some :
      (key : String) (s : State) (k : ℕ) (j : Job)
      → get k s ≡ some j
      → j.idempotency_key ≡ key
      → (x : Job) × (get_by_idempotency_key jobs key s ≡ some x)
  get_by_idempotency_key-some key s k j found same =
      elim (Option-cases (get_by_idempotency_key jobs key s)) [
        | inl missed ↦ absurd (get_by_idempotency_key-none key s k j missed found same)
        | inr hit ↦ hit
      ]

  -- Updating the status of a row that is there never raises, and changes nothing else.
  pub update_status_found :
      (k : ℕ) (st : JobStatus) (s : State) (j : Job)
      → get k s ≡ some j
      → (t : State) × (update_status jobs k st s ≡ (ok (record j { status = st }), t))
        × ((i : ℕ) → get i t ≡ (if k == i then some (record j { status = st }) else get i s))
  unfolding update_status
  update_status_found k st s j found =
      let (t, done) = flush_some jobs (record j { status = st }) s (get_valid k s j found) in
      (
        t,
        rw (get_by_id-get k s ∙ found) (rw done),
        λ i. get-flush i (record j { status = st }) s t done ∙ rw (get_key k s j found),
      )

  pub update_status_missing :
      (k : ℕ) (st : JobStatus) (s : State)
      → get k s ≡ none
      → update_status jobs k st s ≡ (err job_not_found, s)
  unfolding update_status
  update_status_missing k st s gone = rw (get_by_id-get k s ∙ gone)
