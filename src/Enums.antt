-- ===== src/Enums.antt =====
-- schedora/core/enums.py: the statuses and policies.
use schedora.Base.{ℕ, Bool, true, ◌≡◌, ◌↔◌, Comparable, nat_beq, arith}

pub data JobStatus : Type 0 where
  pending scheduled running success failed retrying dead canceled : JobStatus

pub data RetryPolicy : Type 0 where
  fixed exponential jitter : RetryPolicy

pub data WorkflowStatus : Type 0 where
  pending running completed failed : WorkflowStatus

pub data WorkerStatus : Type 0 where
  starting active stale stopping stopped : WorkerStatus

-- Members are equal when their places in the class are.
abbrev pub job_place : JobStatus → ℕ
job_place JobStatus.pending = 0
job_place JobStatus.scheduled = 1
job_place JobStatus.running = 2
job_place JobStatus.success = 3
job_place JobStatus.failed = 4
job_place JobStatus.retrying = 5
job_place JobStatus.dead = 6
job_place JobStatus.canceled = 7

abbrev pub worker_place : WorkerStatus → ℕ
worker_place WorkerStatus.starting = 0
worker_place WorkerStatus.active = 1
worker_place WorkerStatus.stale = 2
worker_place WorkerStatus.stopping = 3
worker_place WorkerStatus.stopped = 4

abbrev pub job_status_beq : JobStatus → JobStatus → Bool
job_status_beq a b = nat_beq (job_place a) (job_place b)

abbrev pub worker_status_beq : WorkerStatus → WorkerStatus → Bool
worker_status_beq a b = nat_beq (worker_place a) (worker_place b)

pub job_status_beq_iff : (a b : JobStatus) → (job_status_beq a b ≡ true) ↔ (a ≡ b)
job_status_beq_iff a b = ground arith

pub worker_status_beq_iff : (a b : WorkerStatus) → (worker_status_beq a b ≡ true) ↔ (a ≡ b)
worker_status_beq_iff a b = ground arith

instance abbrev pub job_status_eq : Comparable JobStatus
job_status_eq = record { equal = job_status_beq; equal_iff = job_status_beq_iff }

instance abbrev pub worker_status_eq : Comparable WorkerStatus
worker_status_eq = record { equal = worker_status_beq; equal_iff = worker_status_beq_iff }
