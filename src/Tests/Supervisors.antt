-- ===== src/Tests/Supervisors.antt =====
-- Inputs for internal/supervisor.
use bigducks_live.Base.{ℕ, ◌≡◌, ◌⊎◌, List, [], ◌∷◌, none, some}
use bigducks_live.Supervisor.{new_supervisor, timed_out, stop_end}
use bigducks_live.Supervisor.Single.{
  Event, begins, is_ready, dies, clears, IsSingle, run, run-IsSingle,
}

-- The first core dies, the second runs.
abbrev restarted : List Event
restarted =
    begins none
    ∷ is_ready 1 none
    ∷ begins none
    ∷ dies 1
    ∷ clears 1
    ∷ begins none
    ∷ is_ready 2 none
    ∷ []

run-IsSingle_example :
    IsSingle (run restarted new_supervisor)
    × (((run restarted new_supervisor).process ≡ none)
        ⊎ ((pid : ℕ) × ((run restarted new_supervisor).process ≡ some pid)
            × ((stop_end pid none timed_out (run restarted new_supervisor)).0.alive ≡ [])
            × ((stop_end pid none timed_out (run restarted new_supervisor)).0.process ≡ none)))
run-IsSingle_example = run-IsSingle restarted none timed_out
