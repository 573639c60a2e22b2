-- ===== src/Observability.antt =====
-- observability/metrics.py, observability/middleware.py and api/v1/metrics.py: the gauges that are read
-- off the tables and the queue, and the counts of requests. A metric of the client library is the number
-- or the function of its labels that it holds; of a histogram, the number of its observations.
pub mod Recording
use schedora.Base.{
  plus-minus, ℕ, ◌+◌, ◌-◌, String, false, Option, none, some, ◌≡◌, ◌==◌, ◌&&◌, if◌then◌else◌,
  length, nat_eq, string_eq, refl, arith, Bool-cases, inl, inr,
}
use schedora.Enums.{active, stale}
use schedora.Errors.{Result, ok, err}
use schedora.Models.{WorkerTable}
use schedora.Store.{QueueStore}
use schedora.Queue.{RedisQueue, get_queue_length, get_dlq_length}
use schedora.Workers.{get_by_status}

pub record Gauges : Type 0 where
  pub workers_active : ℕ
  pub workers_stale : ℕ
  pub queue_length : ℕ
  pub queue_dlq_length : ℕ

module _ (workers : WorkerTable) (store : QueueStore) where
  unfoldable pub update_worker_metrics : workers.State → Gauges → Gauges
  update_worker_metrics db g = record g {
    workers_active = length (get_by_status workers active db);
    workers_stale = length (get_by_status workers stale db);
  }

  unfoldable pub update_queue_metrics : Option RedisQueue → store.State → Gauges → Gauges
  update_queue_metrics none s g = g
  update_queue_metrics (some queue) s g = record g {
    queue_length = get_queue_length store queue s;
    queue_dlq_length = get_dlq_length store queue s;
  }

  -- What `get_metrics` has set when it renders the answer.
  unfoldable pub get_metrics : Option RedisQueue → workers.State → store.State → Gauges → Gauges
  unfolding update_worker_metrics update_queue_metrics
  get_metrics queue db s g = update_queue_metrics queue s (update_worker_metrics db g)

pub record HttpMetrics : Type 0 where
  pub http_requests_total : String → String → ℕ → ℕ
  pub http_request_duration_seconds : String → String → ℕ
  pub http_requests_in_progress : String → String → ℕ

abbrev pub at_labels : String → String → (ℕ → ℕ) → (String → String → ℕ) → String → String → ℕ
at_labels method endpoint f metric m e =
    if method == m && endpoint == e then f (metric m e) else metric m e

abbrev pub status_of : Result ℕ → ℕ
status_of (ok status) = status
status_of (err e) = 500

-- The two increments after the request, with the status 500 for an exception.
abbrev pub observed : String → String → ℕ → HttpMetrics → HttpMetrics
observed method endpoint status x = record x {
  http_requests_total = λ m e st.
      if method == m && endpoint == e && status == st
      then x.http_requests_total m e st + 1
      else x.http_requests_total m e st;
  http_request_duration_seconds =
      at_labels method endpoint (λ n. n + 1) x.http_request_duration_seconds;
}

abbrev pub in_progress : String → String → (ℕ → ℕ) → HttpMetrics → HttpMetrics
in_progress method endpoint f x = record x {
  http_requests_in_progress = at_labels method endpoint f x.http_requests_in_progress;
}

-- The answer is its status code; an exception is raised again.
unfoldable pub dispatch :
    String → String → (HttpMetrics → Result ℕ × HttpMetrics) → HttpMetrics → Result ℕ × HttpMetrics
dispatch method endpoint call_next x =
    if endpoint == "/api/v1/metrics"
    then call_next x
    else let (response, y) = call_next (in_progress method endpoint (λ n. n + 1) x) in
      (
        response,
        in_progress method endpoint (λ n. n - 1) (observed method endpoint (status_of response) y),
      )

-- A request to any path but that of the metrics is counted once, under the status of its answer or under
-- 500 if it raises, and afterwards the number of requests in progress is what it was, if handling it
-- touches no metric.
pub dispatch_lem :
    (method endpoint : String) (response : Result ℕ) (x : HttpMetrics)
    → endpoint == "/api/v1/metrics" ≡ false
    → (y : HttpMetrics) × (dispatch method endpoint (λ z. (response, z)) x ≡ (response, y))
      × ((m e : String) → y.http_requests_in_progress m e ≡ x.http_requests_in_progress m e)
      × ((m e : String) (st : ℕ)
          → y.http_requests_total m e st ≡ (
              if method == m && endpoint == e && status_of response == st
              then x.http_requests_total m e st + 1
              else x.http_requests_total m e st))
unfolding dispatch
dispatch_lem method endpoint response x other = (
  in_progress method endpoint (λ n. n - 1)
      (observed method endpoint (status_of response) (in_progress method endpoint (λ n. n + 1) x)),
  rw other refl,
  λ m e. elim (Bool-cases (method == m && endpoint == e)) [
    | inl here ↦ ground (arith, plus-minus (x.http_requests_in_progress m e))
    | inr elsewhere ↦ ground arith
  ],
  λ m e st. refl,
)
