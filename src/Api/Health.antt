-- ===== src/Api/Health.antt =====
-- api/v1/health.py. Whether the two pings and the queries for the workers succeed is an argument.
use schedora.Base.{ℕ, String, Bool, Option, none, some, ◌&&◌, if◌then◌else◌, length}
use schedora.Enums.{stale}
use schedora.Models.{WorkerTable}
use schedora.Heartbeat.{get_all_active}
use schedora.Workers.{get_all, get_by_status}
use schedora.Api.{StandardResponse, Response, answer}

pub record WorkerStats : Type 0 where
  pub total : ℕ
  pub active : ℕ
  pub stale : ℕ

pub record HealthData : Type 0 where
  pub status : String
  pub database : String
  pub redis : String
  pub workers : Option WorkerStats

abbrev pub connection : Bool → String
connection up = if up then "connected" else "disconnected"

module _ (workers : WorkerTable) where
  abbrev pub worker_stats : Bool → workers.State → Option WorkerStats
  worker_stats readable db =
      if readable
      then some (record {
        total = length (get_all workers db);
        active = length (get_all_active workers db);
        stale = length (get_by_status workers stale db);
      })
      else none

  unfoldable pub health_check :
      (database_up redis_up readable : Bool)
      → workers.State
      → Response (StandardResponse HealthData)
  health_check database_up redis_up readable db = answer 200 (record {
    content = record {
      status = if database_up && redis_up then "healthy" else "unhealthy";
      database = connection database_up;
      redis = connection redis_up;
      workers = worker_stats readable db;
    };
    code = "HEALTH_0001";
    http_status = "OK";
  })
