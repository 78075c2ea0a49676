-- ===== src/Supervisor/Single.antt =====
-- No two cores run at a time under internal/supervisor/supervisor.go.
use bigducks_live.Base.{
  ℕ, ◌≤◌, ◌≡◌, ◌⊎◌, inl, inr, Option-cases, refl, sym, ap, ◌∙◌, subst, true, false, not, ◌==◌, List,
  [], ◌∷◌, Option, none, some, length, All, arith, by_test,
}
use bigducks_live.Errors.{Error, Result}
use bigducks_live.Supervisor.{
  Supervisor, new_supervisor, Started, StopEnding, without, is_process, has_process, clear_process,
  ended, spawn, start_begin, start_end, stop_end,
}

-- What happens to a supervisor: starts begin and end, stops end, and processes end, whereupon their
-- goroutines clear them.
pub data Event : Type 0 where
  begins : Option Error → Event
  is_ready : ℕ → Option Error → Event
  stops : ℕ → Option Error → StopEnding → Event
  dies : ℕ → Event
  clears : ℕ → Event

-- A goroutine clears its process once that has ended.
abbrev pub step : Event → Supervisor → Supervisor
step (begins spawns) s = (start_begin spawns s).0
step (is_ready pid result) s = (start_end pid result s).0
step (stops pid shutdown ending) s = (stop_end pid shutdown ending s).0
step (dies pid) s = ended pid s
step (clears pid) s = clear_process pid (ended pid s)

abbrev pub run : List Event → Supervisor → Supervisor
run [] s = s
run (e ∷ es) s = run es (step e s)

-- Every process that is alive is the one that the supervisor knows.
abbrev Known : Option ℕ → List ℕ → Type 0
Known process pids = All (λ p. process ≡ some p) pids

abbrev pub IsSingle : Supervisor → Type 0
IsSingle s = Known s.process s.alive × (length s.alive ≤ 1)

Known-without :
    (process : Option ℕ) (pid : ℕ) (pids : List ℕ)
    → Known process pids
    → Known process (without pid pids)
unfolding without
Known-without process pid [] h = tt
Known-without process pid (p ∷ ps) h =
    by_test (Known process) (pid == p) (λ _. Known-without process pid ps h.1)
      (λ _. (h.0, Known-without process pid ps h.1))

length-without-le : (pid : ℕ) (pids : List ℕ) → length (without pid pids) ≤ length pids
unfolding without
length-without-le pid [] = omega arith
length-without-le pid (p ∷ ps) = ground (arith, length-without-le pid ps)

-- Nothing is left alive once the only process has ended.
none_left : (pid : ℕ) (pids : List ℕ) → Known (some pid) pids → without pid pids ≡ []
unfolding without
none_left pid [] h = refl
none_left pid (p ∷ ps) h = ground (arith, none_left pid ps h.1, h.0)

is_process_sound :
    (pid : ℕ) (process : Option ℕ) → is_process pid process ≡ true → process ≡ some pid
is_process_sound pid none h = cc
is_process_sound pid (some p) h = ground arith

is_process_refl : (pid : ℕ) → is_process pid (some pid) ≡ true
is_process_refl pid = ground arith

ended-IsSingle : (pid : ℕ) (s : Supervisor) → IsSingle s → IsSingle (ended pid s)
ended-IsSingle pid s h =
    (Known-without s.process pid s.alive h.0, omega (arith, h.1, length-without-le pid s.alive))

-- Where the supervisor knows the process that ended, nothing is alive.
ended_alone :
    (pid : ℕ) (s : Supervisor) → IsSingle s → s.process ≡ some pid → (ended pid s).alive ≡ []
ended_alone pid s h e = none_left pid s.alive (subst (λ p. Known p s.alive) e h.0)

finish-IsSingle :
    (pid : ℕ) (s : Supervisor) → IsSingle s → IsSingle (clear_process pid (ended pid s))
unfolding clear_process
finish-IsSingle pid s h =
    by_test IsSingle (is_process pid s.process)
      (λ same.
        let none_alive = ended_alone pid s h (is_process_sound pid s.process same) in
        subst (λ ps. Known none ps × (length ps ≤ 1)) (sym none_alive) (tt, omega arith))
      (λ _. ended-IsSingle pid s h)

no_process : (process : Option ℕ) → has_process process ≡ false → process ≡ none
no_process none h = refl
no_process (some p) h = cc

none_unknown : (pids : List ℕ) → Known none pids → pids ≡ []
none_unknown [] h = refl
none_unknown (p ∷ ps) h = absurd (let e = h.0 in cc)

spawn-IsSingle :
    (spawns : Option Error) (s : Supervisor)
    → IsSingle s
    → s.process ≡ none
    → IsSingle (spawn spawns s).0
spawn-IsSingle (some e) s h idle = h
spawn-IsSingle none s h idle =
    let empty = none_unknown s.alive (subst (λ p. Known p s.alive) idle h.0) in
    subst (λ ps. Known (some s.next_pid) (s.next_pid ∷ ps) × (length (s.next_pid ∷ ps) ≤ 1))
      (sym empty) ((refl, tt), omega arith)

start_begin-IsSingle :
    (spawns : Option Error) (s : Supervisor) → IsSingle s → IsSingle (start_begin spawns s).0
unfolding start_begin
start_begin-IsSingle spawns s h =
    by_test (λ (r : Supervisor × Result Started). IsSingle r.0) (not s.configured) (λ _. h)
      λ _.
        by_test (λ (r : Supervisor × Result Started). IsSingle r.0) (has_process s.process) (λ _. h)
          λ free. spawn-IsSingle spawns s h (no_process s.process free)

step-IsSingle : (e : Event) (s : Supervisor) → IsSingle s → IsSingle (step e s)
unfolding start_end stop_end
step-IsSingle (begins spawns) s h = start_begin-IsSingle spawns s h
step-IsSingle (is_ready pid none) s h = h
step-IsSingle (is_ready pid (some e)) s h = finish-IsSingle pid s h
step-IsSingle (stops pid shutdown ending) s h = finish-IsSingle pid s h
step-IsSingle (dies pid) s h = ended-IsSingle pid s h
step-IsSingle (clears pid) s h = finish-IsSingle pid s h

run-IsSingle_from : (es : List Event) (s : Supervisor) → IsSingle s → IsSingle (run es s)
run-IsSingle_from [] s h = h
run-IsSingle_from (e ∷ es) s h = run-IsSingle_from es (step e s) (step-IsSingle e s h)

stopped_alone :
    (pid : ℕ) (shutdown : Option Error) (ending : StopEnding) (s : Supervisor)
    → IsSingle s
    → s.process ≡ some pid
    → ((stop_end pid shutdown ending s).0.alive ≡ [])
      × ((stop_end pid shutdown ending s).0.process ≡ none)
unfolding stop_end clear_process
stopped_alone pid shutdown ending s h known =
    let same : is_process pid s.process ≡ true = ap (is_process pid) known ∙ is_process_refl pid in
    (
      by_test (λ (x : Supervisor). x.alive ≡ []) (is_process pid s.process)
          (λ _. ended_alone pid s h known) (λ _. ended_alone pid s h known),
      by_test (λ (x : Supervisor). x.process ≡ none) (is_process pid s.process) (λ _. refl)
          (λ other. cc),
    )

-- Starts, stops, ends of processes and their clearing happen to a new supervisor in any order. Then
-- at most one core is alive, and it is the one that the supervisor knows. If it knows a process now,
-- a Stop of it, however its wait ends, leaves no core alive and no process known.
pub run-IsSingle :
    (es : List Event) (shutdown : Option Error) (ending : StopEnding)
    → IsSingle (run es new_supervisor)
      × (((run es new_supervisor).process ≡ none)
          ⊎ ((pid : ℕ) × ((run es new_supervisor).process ≡ some pid)
              × ((stop_end pid shutdown ending (run es new_supervisor)).0.alive ≡ [])
              × ((stop_end pid shutdown ending (run es new_supervisor)).0.process ≡ none)))
run-IsSingle es shutdown ending =
    let h = run-IsSingle_from es new_supervisor (tt, omega arith) in
    (
      h,
      elim (Option-cases (run es new_supervisor).process) [
        | inl unknown ↦ inl unknown
        | inr (pid, known) ↦
            let (none_alive, forgotten) =
              stopped_alone pid shutdown ending (run es new_supervisor) h known in
            inr (pid, known, none_alive, forgotten)
      ],
    )
