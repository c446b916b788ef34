-- ===== src/Build/Schedule/Tests.antt =====
-- The loop of gen.js's `run` over two circuits.
use zeto.Base.{◌+◌, ◌*◌, ◌≤◌, ◌≡◌, refl, Bool, true, false, none, some, [], ◌∷◌, length}
use zeto.Base.Int.{pos}
use zeto.Build.Settings.{Circuits, is_selected, is_set}
use zeto.Build.Schedule.{
  World, Job, Reach, initially, main_task, loop, after_main, all_active, ended, running, succeeded,
  go, settle, here, then_step, advance, may_go, start, hook, has, is_full, same,
}
use zeto.Build.Schedule.Plan.{plan, count, jobs_of, completed, started_as_planned, ended_as_planned}
use zeto.Build.Schedule.Progress.{IsOver, run_never_stuck}
use zeto.Build.Schedule.Finish.{steps, steps-le}
use zeto.Build.Schedule.Limit.{busy, limit_not_kept}

abbrev circuits : Circuits
circuits =
    ("anon", record { ptau = "p13"; batch_ptau = some "p15"; skip_solidity_generation = false })
    ∷ (
      "anon_enc",
      record { ptau = "p14"; batch_ptau = some "p16"; skip_solidity_generation = false },
    )
    ∷ []

abbrev only_anon : Circuits
only_anon =
    ("anon", record { ptau = "p13"; batch_ptau = none; skip_solidity_generation = false }) ∷ []

limit_not_kept_example :
    (w : World) × Reach (pos 1) none (initially circuits) w × (busy w.active ≡ length circuits)
unfolding is_set
limit_not_kept_example = limit_not_kept (pos 1) circuits (refl, (refl, tt))

abbrev job : Bool → Job
job hooked = record { task = main_task "anon"; status = succeeded; hooked = hooked }

abbrev finish : World
finish = record { point = ended; active = job true ∷ []; finished = [] }

-- One circuit is started, returns, and is waited for.
run_of_anon : Reach (pos 8) none (initially only_anon) finish
unfolding advance may_go start hook has is_full same is_selected is_set
run_of_anon =
    let started : Reach (pos 8) none (initially only_anon) (record {
      point =
          after_main "anon"
            (record { ptau = "p13"; batch_ptau = none; skip_solidity_generation = false }) [];
      active = record { task = main_task "anon"; status = running; hooked = false } ∷ [];
      finished = [];
    }) =
      then_step here (go refl refl) in
    let hooked : Reach (pos 8) none (initially only_anon) (record {
      point = loop [];
      active = record { task = main_task "anon"; status = running; hooked = true } ∷ [];
      finished = [];
    }) =
      then_step started (go refl refl) in
    let waiting : Reach (pos 8) none (initially only_anon) (record {
      point = all_active;
      active = record { task = main_task "anon"; status = running; hooked = true } ∷ [];
      finished = [];
    }) =
      then_step hooked (go refl refl) in
    let returned : Reach (pos 8) none (initially only_anon)
        (record { point = all_active; active = job true ∷ []; finished = [] }) =
      then_step waiting (
        settle [] [] (record { task = main_task "anon"; status = running; hooked = true }) succeeded
          refl refl refl refl refl) in
    then_step returned (go refl refl)

ended_as_planned_example :
    completed (main_task "anon") finish ≡ count (main_task "anon") (plan none only_anon)
ended_as_planned_example = ended_as_planned (main_task "anon") only_anon run_of_anon refl

started_as_planned_example :
    count (main_task "anon") finish.finished + jobs_of (main_task "anon") finish.active
    ≤ count (main_task "anon") (plan none only_anon)
started_as_planned_example = started_as_planned (main_task "anon") only_anon run_of_anon

run_never_stuck_example : (v : World) × Reach (pos 8) none finish v × IsOver v.point
run_never_stuck_example = run_never_stuck only_anon run_of_anon

steps-le_example : steps run_of_anon ≤ 8 * length only_anon + 3
steps-le_example = steps-le only_anon run_of_anon
