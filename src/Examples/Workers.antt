-- ===== src/Examples/Workers.antt =====
-- services/heartbeat_service.py on a few workers.
use schedora.Base.{some, [], ◌∷◌, ◌≡◌, ◌==◌, nat_eq, string_eq, refl, if◌then◌else◌}
use schedora.Enums.{running, job_status_eq}
use schedora.Heartbeat.{Service, new_worker}
use schedora.Store.Sample.Keys.{map_presence}
use schedora.Examples.Data.{job_table, worker_table, job_of, no_presence, registration}

abbrev pub Fleet : Type 0
Fleet = Service job_table worker_table map_presence 30

-- Worker "w" registered at 5, with its first heartbeat, and job 1 runs on it.
abbrev pub one : Fleet
one = record {
  job_rows = job_of 1 "a" running ∷ job_of 2 "b" running ∷ [];
  worker_rows = new_worker 5 registration ∷ [];
  redis = record {
    sets = λ k. if k == "worker:w:jobs" then 1 ∷ [] else [];
    expires = λ k. if k == "worker:w:heartbeat" then 30_000_005 else 0;
  };
}

abbrev pub nobody : Fleet
nobody = record { job_rows = []; worker_rows = []; redis = no_presence }

pub held : worker_table.get "w" one.worker_rows ≡ some (new_worker 5 registration)
unfolding new_worker
held = refl
