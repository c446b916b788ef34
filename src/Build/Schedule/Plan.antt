-- ===== src/Build/Schedule/Plan.antt =====
-- What has been run when the loop of gen.js's `run` and its `Promise.all` are through.
use zeto.Base.{
  ℕ, ◌+◌, ◌≤◌, ◌≡◌, refl, ◌∙◌, Bool, true, false, ◌&&◌, ◌||◌, Option, List, [], ◌∷◌, ◌++◌, String,
  if◌then◌else◌, arith,
}
use zeto.Base.Int.{ℤ}
use zeto.Build.Settings.{Circuits, is_set, is_selected}
use zeto.Build.Schedule.{
  Task, Status, Job, Point, World, has, is_running, is_succeeded, is_failed, same, start, hook,
  main_task, batch_task, advance, may_go, Step, Reach, initially, running, loop, after_main,
  after_batch, all_active, ended, exited, go, reject, settle, delete, unhandled, here, then_step,
}

-- The calls of `processCircuit` that a configuration and a selection ask for.
abbrev pub plan : Option (List String) → Circuits → List Task
plan only [] = []
plan only ((name, c) ∷ cs) =
    let rest = plan only cs in
    if is_selected only name
    then (if is_set c.batch_ptau
        then main_task name ∷ batch_task name ∷ rest
        else main_task name ∷ rest)
    else rest

abbrev pub count : Task → List Task → ℕ
count t [] = 0
count t (u ∷ us) = (if same t u then 1 else 0) + count t us

-- How many promises of the set are of a task.
abbrev pub jobs_of : Task → List Job → ℕ
jobs_of t [] = 0
jobs_of t (j ∷ js) = (if same t j.task then 1 else 0) + jobs_of t js

-- How many of them have succeeded.
abbrev successes : Task → List Job → ℕ
successes t [] = 0
successes t (j ∷ js) = (if same t j.task && is_succeeded j.status then 1 else 0) + successes t js

-- How often a task has been run through.
abbrev pub completed : Task → World → ℕ
completed t w = count t w.finished + successes t w.active

pending : Option (List String) → Point → List Task
pending only (loop cs) = plan only cs
pending only (after_main name c cs) =
    if is_set c.batch_ptau then batch_task name ∷ plan only cs else plan only cs
pending only (after_batch name cs) = plan only cs
pending only all_active = []
pending only ended = []
pending only (exited p) = pending only p

total : Option (List String) → Task → World → ℕ
total only t w = count t w.finished + jobs_of t w.active + count t (pending only w.point)

jobs_of-append : (t : Task) (xs ys : List Job) → jobs_of t (xs ++ ys) ≡ jobs_of t xs + jobs_of t ys
jobs_of-append t [] ys = omega arith
jobs_of-append t (x ∷ xs) ys = omega (arith, jobs_of-append t xs ys)

jobs_of-hook : (t u : Task) (js : List Job) → jobs_of t (hook u js) ≡ jobs_of t js
unfolding hook
jobs_of-hook t u [] = refl
jobs_of-hook t u (j ∷ js) = ground (arith, jobs_of-hook t u js)

jobs_of-start :
    (t u : Task) (js : List Job)
    → jobs_of t (start u js) ≡ jobs_of t js + (if same t u then 1 else 0)
unfolding start
jobs_of-start t u js =
    omega (arith, jobs_of-append t js (record { task = u; status = running; hooked = false } ∷ []))

-- The tasks of the set and those to come, over a stretch of the code.
jobs_of-advance :
    (only : Option (List String)) (t : Task) (p : Point) (js : List Job)
    → jobs_of t (advance only p js).1 + count t (pending only (advance only p js).0)
      ≡ jobs_of t js + count t (pending only p)
unfolding pending advance
jobs_of-advance only t (loop []) js = refl
jobs_of-advance only t (loop ((name, c) ∷ cs)) js =
    ground (arith, jobs_of-start t (main_task name) js)
jobs_of-advance only t (after_main name c cs) js =
    ground (arith, jobs_of-start t (batch_task name) js, jobs_of-hook t (main_task name) js)
jobs_of-advance only t (after_batch name cs) js = ground (
  arith,
  jobs_of-hook t (batch_task name) js,
  jobs_of-hook t (main_task name) (hook (batch_task name) js),
)
jobs_of-advance only t all_active js = refl
jobs_of-advance only t ended js = refl
jobs_of-advance only t (exited p) js = refl

module _ {limit : ℤ} {only : Option (List String)} where
  total-Step : (t : Task) {w v : World} → Step limit only w v → total only t v ≡ total only t w
  unfolding total pending
  total-Step t {w = w} (go h e) = rw e (omega (arith, jobs_of-advance only t w.point w.active))
  total-Step t {w = w} (reject h e) = rw e refl
  total-Step t {w = w} (settle front back j s alive r q a e) = rw e (
      rw a (
        omega (
          arith,
          jobs_of-append t front (j ∷ back),
          jobs_of-append t front (record j { status = s } ∷ back),
        )))
  total-Step t {w = w} (delete front back j alive r q a e) =
      rw e (rw a (omega (arith, jobs_of-append t front (j ∷ back), jobs_of-append t front back)))
  total-Step t {w = w} (unhandled front back j alive r q a e) = rw e refl

  total-Reach : (t : Task) {w v : World} → Reach limit only w v → total only t v ≡ total only t w
  total-Reach t here = refl
  total-Reach t (then_step r st) = total-Step t st ∙ total-Reach t r

  -- `processCircuit` is never called for a task more often than the configuration asks for it.
  pub started_as_planned :
      (t : Task) (cs : Circuits) {w : World}
      → Reach limit only (initially cs) w
      → count t w.finished + jobs_of t w.active ≤ count t (plan only cs)
  unfolding total pending
  started_as_planned t cs r = omega (arith, total-Reach t r)

abbrev IsThrough : World → Type 0
IsThrough w = w.point ≡ ended → (has is_running w.active ≡ false) × (has is_failed w.active ≡ false)

has-append :
    (test : Status → Bool) (xs ys : List Job) → has test (xs ++ ys) ≡ (has test xs || has test ys)
unfolding has
has-append test [] ys = refl
has-append test (x ∷ xs) ys = ground (arith, has-append test xs ys)

IsThrough-advance :
    (limit : ℤ) (only : Option (List String)) (p : Point) (js : List Job)
    → may_go limit p js ≡ true
    → (advance only p js).0 ≡ ended
    → (has is_running (advance only p js).1 ≡ false) × (has is_failed (advance only p js).1 ≡ false)
unfolding advance may_go
IsThrough-advance limit only (loop []) js h e = ground arith
IsThrough-advance limit only (loop ((name, c) ∷ cs)) js h e = ground arith
IsThrough-advance limit only (after_main name c cs) js h e = ground arith
IsThrough-advance limit only (after_batch name cs) js h e = ground arith
IsThrough-advance limit only all_active js h e = ground arith
IsThrough-advance limit only ended js h e = ground arith
IsThrough-advance limit only (exited p) js h e = ground arith

successes-jobs_of :
    (t : Task) (js : List Job)
    → has is_running js ≡ false
    → has is_failed js ≡ false
    → successes t js ≡ jobs_of t js
unfolding has
successes-jobs_of t [] r f = refl
successes-jobs_of t (j ∷ js) r f = ground (arith, successes-jobs_of t js)

module _ {limit : ℤ} {only : Option (List String)} where
  Step-IsThrough : {w v : World} → Step limit only w v → IsThrough w → IsThrough v
  unfolding has
  Step-IsThrough {w = w} (go h e) inv =
      rw e (λ q. IsThrough-advance limit only w.point w.active h q)
  Step-IsThrough {w = w} (reject h e) inv = rw e (λ q. ground arith)
  Step-IsThrough {w = w} (settle front back j s alive r q a e) inv = rw e (λ x.
      let (none_running, _) = inv x in
      absurd (ground (arith, has-append is_running front (j ∷ back), rw a at none_running)))
  Step-IsThrough {w = w} (delete front back j alive r q a e) inv = rw e (λ x.
      let (none_running, none_failed) = inv x in
      ground (
        arith,
        has-append is_running front (j ∷ back),
        has-append is_running front back,
        has-append is_failed front (j ∷ back),
        has-append is_failed front back,
        rw a at none_running,
        rw a at none_failed,
      ))
  Step-IsThrough {w = w} (unhandled front back j alive r q a e) inv = rw e (λ x. ground arith)

  Reach-IsThrough : {w v : World} → Reach limit only w v → IsThrough w → IsThrough v
  Reach-IsThrough here h = h
  Reach-IsThrough (then_step r st) h = Step-IsThrough st (Reach-IsThrough r h)

  -- When `run` has come to its end, each call that the configuration asks for has returned.
  pub ended_as_planned :
      (t : Task) (cs : Circuits) {w : World}
      → Reach limit only (initially cs) w
      → w.point ≡ ended
      → completed t w ≡ count t (plan only cs)
  unfolding total pending
  ended_as_planned t cs {w = w} r e =
      let none_pending : count t (pending only w.point) ≡ 0 = rw e refl in
      let (no_running, no_failed) = Reach-IsThrough r (λ q. ground arith) e in
      omega
        (arith, total-Reach t r, successes-jobs_of t w.active no_running no_failed, none_pending)
