-- ===== src/Examples/Races.antt =====
-- services/job_service.py: `cancel_job`, while the job succeeds.
use schedora.Base.{ℕ, none, some, List, [], ◌∷◌, ◌≡◌, ◌==◌, nat_eq, inr, refl, if◌then◌else◌}
use schedora.Enums.{running, success, canceled}
use schedora.Errors.{ok}
use schedora.Models.{Job}
use schedora.Jobs.{World}
use schedora.Jobs.Races.{cancel_job_during, cancel_job_overwrites}
use schedora.Store.Sample.Keys.{map_queues}
use schedora.Examples.Data.{job_table, job_of, no_queues}

abbrev busy : World job_table map_queues
busy = record { db = job_of 2 "b" running ∷ []; redis = no_queues }

-- The row that the executor commits meanwhile.
abbrev over : Job
over = record (job_of 2 "b" success) { completed_at = some 60; result = some "{}" }

cancel_job_overwrites_example :
    (t : List Job) × (cancel_job_during job_table map_queues none (λ s. over ∷ []) 2 busy
      ≡ (ok (record over { status = canceled }), record { db = t; redis = no_queues }))
    × ((i : ℕ)
        → job_table.get i t ≡ (
            if 2 == i
            then some (record over { status = canceled })
            else job_table.get i (over ∷ [])))
cancel_job_overwrites_example =
    cancel_job_overwrites job_table map_queues none (λ s. over ∷ []) 2 busy (job_of 2 "b" running)
      over refl (inr (inr refl)) refl
