-- ===== src/Build/Schedule/Limit.antt =====
-- How many circuits gen.js's `run` may have in the works at once.
use zeto.Base.{
  ℕ, suc, ◌+◌, ◌≡◌, refl, sym, ap, Bool, true, false, Option, none, List, [], ◌∷◌, ◌++◌, String,
  length, All, if◌then◌else◌, arith,
}
use zeto.Base.Int.{ℤ}
use zeto.Build.Settings.{CircuitConfig, Circuits, is_set, is_selected}
use zeto.Build.Schedule.{
  Task, Status, Job, Point, World, has, is_running, is_succeeded, start, hook, main_task,
  batch_task, advance, may_go, Reach, initially, running, succeeded, loop, after_main, after_batch,
  go, settle, here, then_step,
}

-- How many of the promises are not settled.
abbrev pub busy : List Job → ℕ
busy [] = 0
busy (j ∷ js) = (if is_running j.status then 1 else 0) + busy js

abbrev pub HasBatch : String × CircuitConfig → Type 0
HasBatch (name, c) = is_set c.batch_ptau ≡ true

busy-append : (xs ys : List Job) → busy (xs ++ ys) ≡ busy xs + busy ys
busy-append [] ys = omega arith
busy-append (x ∷ xs) ys = omega (arith, busy-append xs ys)

busy-hook : (t : Task) (js : List Job) → busy (hook t js) ≡ busy js
unfolding hook
busy-hook t [] = refl
busy-hook t (j ∷ js) = ground (arith, busy-hook t js)

has-in :
    (test : Status → Bool) (xs ys : List Job) (j : Job)
    → test j.status ≡ true
    → has test (xs ++ j ∷ ys) ≡ true
unfolding has
has-in test [] ys j h = ground arith
has-in test (x ∷ xs) ys j h = ground (arith, has-in test xs ys j h)

append_assoc : (xs ys : List Job) (j : Job) → (xs ++ j ∷ []) ++ ys ≡ xs ++ j ∷ ys
append_assoc [] ys j = refl
append_assoc (x ∷ xs) ys j = ap (λ l. x ∷ l) (append_assoc xs ys j)

Reach-trans :
    {limit : ℤ} {only : Option (List String)} {u v w : World}
    → Reach limit only u v
    → Reach limit only v w
    → Reach limit only u w
Reach-trans r here = r
Reach-trans r (then_step q st) = then_step (Reach-trans r q) st

module _ (limit : ℤ) (name : String) (c : CircuitConfig) (cs : Circuits) (js : List Job)
    (done : List Task) (batch : is_set c.batch_ptau ≡ true) where
  abbrev main_job : Status → Job
  main_job s = record { task = main_task name; status = s; hooked = false }

  abbrev batch_job : Job
  batch_job = record { task = batch_task name; status = running; hooked = false }

  abbrev world : Point → List Job → World
  world p active = record { point = p; active = active; finished = done }

  abbrev both : List Job
  both = js ++ main_job succeeded ∷ batch_job ∷ []

  abbrev left : List Job
  left = hook (main_task name) (hook (batch_task name) both)

  -- One round in which the circuit's own call returns while its promise stays in the set.
  round : Reach limit none (world (loop ((name, c) ∷ cs)) js) (world (loop cs) left)
  unfolding advance may_go start is_selected
  round =
      let passed : has is_succeeded (js ++ main_job succeeded ∷ []) ≡ true =
        has-in is_succeeded js [] (main_job succeeded) refl in
      let passes : has is_succeeded both ≡ true =
        has-in is_succeeded js (batch_job ∷ []) (main_job succeeded) refl in
      let one : List Job = js ++ main_job succeeded ∷ [] in
      let batched : world (after_batch name cs) both
          ≡ world (advance none (after_main name c cs) one).0
              (advance none (after_main name c cs) one).1 =
        rw batch (
          ap (world (after_batch name cs))
            (sym (append_assoc js (batch_job ∷ []) (main_job succeeded)))) in
      let started : Reach limit none (world (loop ((name, c) ∷ cs)) js)
          (world (after_main name c cs) (js ++ main_job running ∷ [])) =
        then_step here (go refl refl) in
      let returned : Reach limit none (world (loop ((name, c) ∷ cs)) js)
          (world (after_main name c cs) (js ++ main_job succeeded ∷ [])) =
        then_step started (settle js [] (main_job running) succeeded refl refl refl refl refl) in
      let batch_started : Reach limit none (world (loop ((name, c) ∷ cs)) js)
          (world (after_batch name cs) both) =
        then_step returned (go (ground (arith, passed)) batched) in
      then_step batch_started (go (ground (arith, passes)) refl)

  busy-left : busy left ≡ suc (busy js)
  busy-left = omega (
    arith,
    busy-hook (main_task name) (hook (batch_task name) both),
    busy-hook (batch_task name) both,
    busy-append js (main_job succeeded ∷ batch_job ∷ []),
  )

-- The rounds one after the other: each leaves its batch variant running.
pile_up :
    (limit : ℤ) (cs : Circuits) (js : List Job) (done : List Task)
    → All HasBatch cs
    → (left : List Job) × Reach limit none
        (record { point = loop cs; active = js; finished = done })
        (record { point = loop []; active = left; finished = done })
      × (busy left ≡ length cs + busy js)
pile_up limit [] js done h = (js, here, omega arith)
pile_up limit ((name, c) ∷ cs) js done (hc, h) =
    let (left', r, e) = pile_up limit cs (left limit name c cs js done hc) done h in
    (
      left',
      Reach-trans (round limit name c cs js done hc) r,
      omega (arith, e, busy-left limit name c cs js done hc),
    )

-- With n circuits that have a batch variant each, and with no selection, there is a run for every
-- limit in which n calls of `processCircuit` are under way at once.
pub limit_not_kept :
    (limit : ℤ) (cs : Circuits)
    → All HasBatch cs
    → (w : World) × Reach limit none (initially cs) w × (busy w.active ≡ length cs)
limit_not_kept limit cs h =
    let (left, r, e) = pile_up limit cs [] [] h in
    (record { point = loop []; active = left; finished = [] }, r, omega (arith, e))
