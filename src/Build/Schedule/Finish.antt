-- ===== src/Build/Schedule/Finish.antt =====
-- That the loop of gen.js's `run` and the promises it has made come to an end.
use zeto.Base.{
  ℕ, suc, ◌+◌, ◌*◌, ◌≤◌, ◌<◌, ◌≡◌, refl, true, false, Option, List, [], ◌∷◌, ◌++◌, length, String,
  arith,
}
use zeto.Base.Int.{ℤ}
use zeto.Build.Settings.{Circuits}
use zeto.Build.Schedule.{
  Task, Status, Job, Point, World, is_running, start, hook, main_task, batch_task, advance, may_go,
  may_reject, has_exited, Step, Reach, initially, running, succeeded, failed, loop, after_main,
  after_batch, all_active, ended, exited, go, reject, settle, delete, unhandled, here, then_step,
}

-- A promise can be settled and deleted.
abbrev job_weight : Status → ℕ
job_weight running = 2
job_weight _ = 1

abbrev jobs_weight : List Job → ℕ
jobs_weight [] = 0
jobs_weight (j ∷ js) = job_weight j.status + jobs_weight js

abbrev point_weight : Point → ℕ
point_weight (loop cs) = 3 + 8 * length cs
point_weight (after_main name c cs) = 8 + 8 * length cs
point_weight (after_batch name cs) = 5 + 8 * length cs
point_weight all_active = 2
point_weight ended = 1
point_weight (exited p) = 0

abbrev pub weight : World → ℕ
weight w = point_weight w.point + jobs_weight w.active

jobs_weight-append : (xs ys : List Job) → jobs_weight (xs ++ ys) ≡ jobs_weight xs + jobs_weight ys
jobs_weight-append [] ys = omega arith
jobs_weight-append (x ∷ xs) ys = omega (arith, jobs_weight-append xs ys)

jobs_weight-hook : (t : Task) (js : List Job) → jobs_weight (hook t js) ≡ jobs_weight js
unfolding hook
jobs_weight-hook t [] = refl
jobs_weight-hook t (j ∷ js) = ground (arith, jobs_weight-hook t js)

jobs_weight-start : (t : Task) (js : List Job) → jobs_weight (start t js) ≡ jobs_weight js + 2
unfolding start
jobs_weight-start t js =
    omega
      (arith, jobs_weight-append js (record { task = t; status = running; hooked = false } ∷ []))

weight-advance :
    (limit : ℤ) (only : Option (List String)) (p : Point) (js : List Job)
    → may_go limit p js ≡ true
    → point_weight (advance only p js).0 + jobs_weight (advance only p js).1
      < point_weight p + jobs_weight js
unfolding advance may_go
weight-advance limit only (loop []) js h = omega arith
weight-advance limit only (loop ((name, c) ∷ cs)) js h =
    ground (arith, jobs_weight-start (main_task name) js)
weight-advance limit only (after_main name c cs) js h =
    ground (arith, jobs_weight-start (batch_task name) js, jobs_weight-hook (main_task name) js)
weight-advance limit only (after_batch name cs) js h = ground (
  arith,
  jobs_weight-hook (batch_task name) js,
  jobs_weight-hook (main_task name) (hook (batch_task name) js),
)
weight-advance limit only all_active js h = omega arith
weight-advance limit only ended js h = ground arith
weight-advance limit only (exited p) js h = ground arith

may_reject-weight :
    (limit : ℤ) (p : Point) (js : List Job) → may_reject limit p js ≡ true → 0 < point_weight p
unfolding may_reject
may_reject-weight limit (loop cs) js h = omega arith
may_reject-weight limit (after_main name c cs) js h = omega arith
may_reject-weight limit (after_batch name cs) js h = omega arith
may_reject-weight limit all_active js h = omega arith
may_reject-weight limit ended js h = omega arith
may_reject-weight limit (exited p) js h = ground arith

alive-weight : (p : Point) → has_exited p ≡ false → 0 < point_weight p
alive-weight (loop cs) h = omega arith
alive-weight (after_main name c cs) h = omega arith
alive-weight (after_batch name cs) h = omega arith
alive-weight all_active h = omega arith
alive-weight ended h = omega arith
alive-weight (exited p) h = ground arith

settled-weight : (s : Status) → is_running s ≡ false → job_weight s ≡ 1
settled-weight running h = ground arith
settled-weight succeeded h = refl
settled-weight failed h = refl

module _ {limit : ℤ} {only : Option (List String)} where
  pub weight-Step : {w v : World} → Step limit only w v → weight v < weight w
  weight-Step {w = w} (go h e) = rw e (weight-advance limit only w.point w.active h)
  weight-Step {w = w} (reject h e) =
      rw e (omega (arith, may_reject-weight limit w.point w.active h))
  weight-Step {w = w} (settle front back j s alive r q a e) =
      let two : job_weight j.status ≡ 2 = rw r refl in
      rw (e, a)
        (omega (
          arith,
          two,
          settled-weight s q,
          jobs_weight-append front (j ∷ back),
          jobs_weight-append front (record j { status = s } ∷ back),
        ))
  weight-Step {w = w} (delete front back j alive r q a e) =
      let one : job_weight j.status ≡ 1 = rw r refl in
      rw (e, a)
        (omega (arith, one, jobs_weight-append front (j ∷ back), jobs_weight-append front back))
  weight-Step {w = w} (unhandled front back j alive r q a e) =
      rw e (omega (arith, alive-weight w.point alive))

  -- The number of steps of a run.
  abbrev pub steps : {w v : World} → Reach limit only w v → ℕ
  steps here = 0
  steps (then_step r st) = suc (steps r)

  steps-weight : {w v : World} (r : Reach limit only w v) → steps r + weight v ≤ weight w
  steps-weight here = omega arith
  steps-weight (then_step r st) = omega (arith, steps-weight r, weight-Step st)

  -- Every run over n circuits has at most 8 n + 3 steps, events included.
  pub steps-le :
      (cs : Circuits) {v : World} (r : Reach limit only (initially cs) v)
      → steps r ≤ 8 * length cs + 3
  steps-le cs r = omega (arith, steps-weight r)
