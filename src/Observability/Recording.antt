-- ===== src/Observability/Recording.antt =====
-- observability/metrics.py: the counters of jobs and of the queue, and the functions that record in them.
-- A counter is the function of its label that it holds; a histogram holds the number of its observations.
use schedora.Base.{
  ℕ, ◌+◌, String, Bool, false, List, [], ◌∷◌, ◌≡◌, ◌==◌, ◌&&◌, if◌then◌else◌, count, string_eq,
  refl, arith,
}

pub record JobMetrics : Type 0 where
  pub jobs_created_total : String → ℕ
  pub jobs_succeeded_total : String → ℕ
  pub jobs_failed_total : String → ℕ
  pub jobs_retrying_total : String → ℕ
  pub job_duration_seconds : String → String → ℕ
  pub queue_enqueued_total : String → ℕ
  pub queue_dequeued_total : String → ℕ

abbrev pub no_metrics : JobMetrics
no_metrics = record {
  jobs_created_total = λ t. 0;
  jobs_succeeded_total = λ t. 0;
  jobs_failed_total = λ t. 0;
  jobs_retrying_total = λ t. 0;
  job_duration_seconds = λ t st. 0;
  queue_enqueued_total = λ q. 0;
  queue_dequeued_total = λ q. 0;
}

-- `labels(...).inc()`
abbrev pub inc : String → (String → ℕ) → String → ℕ
inc label metric l = if label == l then metric l + 1 else metric l

-- `labels(job_type=..., status=...).observe(duration)`
abbrev pub observe : String → String → (String → String → ℕ) → String → String → ℕ
observe job_type status metric t st =
    if job_type == t && status == st then metric t st + 1 else metric t st

unfoldable pub record_job_created : String → JobMetrics → JobMetrics
record_job_created job_type m = record m { jobs_created_total = inc job_type m.jobs_created_total }

unfoldable pub record_job_succeeded : String → JobMetrics → JobMetrics
record_job_succeeded job_type m = record m {
  jobs_succeeded_total = inc job_type m.jobs_succeeded_total;
  job_duration_seconds = observe job_type "success" m.job_duration_seconds;
}

unfoldable pub record_job_failed : String → JobMetrics → JobMetrics
record_job_failed job_type m = record m {
  jobs_failed_total = inc job_type m.jobs_failed_total;
  job_duration_seconds = observe job_type "failed" m.job_duration_seconds;
}

unfoldable pub record_job_retrying : String → JobMetrics → JobMetrics
record_job_retrying job_type m = record m {
  jobs_retrying_total = inc job_type m.jobs_retrying_total;
}

unfoldable pub record_queue_enqueue : String → JobMetrics → JobMetrics
record_queue_enqueue queue_name m = record m {
  queue_enqueued_total = inc queue_name m.queue_enqueued_total;
}

unfoldable pub record_queue_dequeue : String → JobMetrics → JobMetrics
record_queue_dequeue queue_name m = record m {
  queue_dequeued_total = inc queue_name m.queue_dequeued_total;
}

pub data Event : Type 0 where
  job_created job_succeeded job_failed job_retrying : (job_type : String) → Event
  queue_enqueue queue_dequeue : (queue_name : String) → Event

abbrev pub record_event : Event → JobMetrics → JobMetrics
record_event (job_created t) = record_job_created t
record_event (job_succeeded t) = record_job_succeeded t
record_event (job_failed t) = record_job_failed t
record_event (job_retrying t) = record_job_retrying t
record_event (queue_enqueue q) = record_queue_enqueue q
record_event (queue_dequeue q) = record_queue_dequeue q

-- The latest event is in front.
abbrev pub recorded : List Event → JobMetrics
recorded [] = no_metrics
recorded (e ∷ es) = record_event e (recorded es)

-- The events of one kind with one label.
abbrev pub of_job_created : String → Event → Bool
of_job_created l (job_created t) = t == l
of_job_created l (job_succeeded t) = false
of_job_created l (job_failed t) = false
of_job_created l (job_retrying t) = false
of_job_created l (queue_enqueue t) = false
of_job_created l (queue_dequeue t) = false

abbrev pub of_job_succeeded : String → Event → Bool
of_job_succeeded l (job_created t) = false
of_job_succeeded l (job_succeeded t) = t == l
of_job_succeeded l (job_failed t) = false
of_job_succeeded l (job_retrying t) = false
of_job_succeeded l (queue_enqueue t) = false
of_job_succeeded l (queue_dequeue t) = false

abbrev pub of_job_failed : String → Event → Bool
of_job_failed l (job_created t) = false
of_job_failed l (job_succeeded t) = false
of_job_failed l (job_failed t) = t == l
of_job_failed l (job_retrying t) = false
of_job_failed l (queue_enqueue t) = false
of_job_failed l (queue_dequeue t) = false

abbrev pub of_job_retrying : String → Event → Bool
of_job_retrying l (job_created t) = false
of_job_retrying l (job_succeeded t) = false
of_job_retrying l (job_failed t) = false
of_job_retrying l (job_retrying t) = t == l
of_job_retrying l (queue_enqueue t) = false
of_job_retrying l (queue_dequeue t) = false

abbrev pub of_queue_enqueue : String → Event → Bool
of_queue_enqueue l (job_created t) = false
of_queue_enqueue l (job_succeeded t) = false
of_queue_enqueue l (job_failed t) = false
of_queue_enqueue l (job_retrying t) = false
of_queue_enqueue l (queue_enqueue t) = t == l
of_queue_enqueue l (queue_dequeue t) = false

abbrev pub of_queue_dequeue : String → Event → Bool
of_queue_dequeue l (job_created t) = false
of_queue_dequeue l (job_succeeded t) = false
of_queue_dequeue l (job_failed t) = false
of_queue_dequeue l (job_retrying t) = false
of_queue_dequeue l (queue_enqueue t) = false
of_queue_dequeue l (queue_dequeue t) = t == l

-- After any recordings, each counter of a label is the number of the recordings of its kind with that
-- label, and the histogram of the durations of a type has one observation for each recorded success, under
-- "success", and one for each recorded failure, under "failed".
pub recorded_lem :
    (es : List Event) (t : String)
    → ((recorded es).jobs_created_total t ≡ count (of_job_created t) es)
      × ((recorded es).jobs_succeeded_total t ≡ count (of_job_succeeded t) es)
      × ((recorded es).jobs_failed_total t ≡ count (of_job_failed t) es)
      × ((recorded es).jobs_retrying_total t ≡ count (of_job_retrying t) es)
      × ((recorded es).job_duration_seconds t "success" ≡ count (of_job_succeeded t) es)
      × ((recorded es).job_duration_seconds t "failed" ≡ count (of_job_failed t) es)
      × ((recorded es).queue_enqueued_total t ≡ count (of_queue_enqueue t) es)
      × ((recorded es).queue_dequeued_total t ≡ count (of_queue_dequeue t) es)
unfolding record_job_created record_job_succeeded record_job_failed record_job_retrying
    record_queue_enqueue record_queue_dequeue
recorded_lem [] t = (refl, refl, refl, refl, refl, refl, refl, refl)
recorded_lem (job_created l ∷ es) t = ground (arith, recorded_lem es t)
recorded_lem (job_succeeded l ∷ es) t = ground (arith, recorded_lem es t)
recorded_lem (job_failed l ∷ es) t = ground (arith, recorded_lem es t)
recorded_lem (job_retrying l ∷ es) t = ground (arith, recorded_lem es t)
recorded_lem (queue_enqueue l ∷ es) t = ground (arith, recorded_lem es t)
recorded_lem (queue_dequeue l ∷ es) t = ground (arith, recorded_lem es t)
