-- ===== src/Build/Schedule.antt =====
-- The loop of gen.js's `run` that starts the circuits, and the events it interleaves with: a
-- promise that is settled, its `finally` callback, a rejection that nothing handles.
pub mod Plan
pub mod Finish
pub mod Limit
pub mod Progress
mod Tests
use zeto.Base.{
  ℕ, zero, suc, ◌+◌, ◌≡◌, Bool, true, false, ◌&&◌, ◌||◌, not, Option, List, [], ◌∷◌, ◌++◌, map,
  length, String, str_eq, leb, if◌then◌else◌,
}
use zeto.Base.Int.{ℤ, pos, negsuc}
use zeto.Build.Settings.{CircuitConfig, Circuits, is_set, is_selected}

-- A call of `processCircuit`: a circuit, or its `_batch` variant.
pub record Task : Type 0 where
  pub circuit : String
  pub is_batch : Bool

pub data Status : Type 0 where
  running succeeded failed : Status

-- A promise of `activePromises`, and whether `finally` has been called on it.
pub record Job : Type 0 where
  pub task : Task
  pub status : Status
  pub hooked : Bool

-- Where `run` stands: at the head of the loop, at the test after a circuit was started, at the
-- test after a batch variant was started, at `Promise.all`, at its end, or exited.
pub data Point : Type 0 where
  loop : Circuits → Point
  after_main : String → CircuitConfig → Circuits → Point
  after_batch : String → Circuits → Point
  all_active : Point
  ended : Point
  exited : Point → Point

-- `activePromises`, in insertion order, and the tasks whose promises have left it.
pub record World : Type 0 where
  pub point : Point
  pub active : List Job
  pub finished : List Task

unfoldable pub has : (Status → Bool) → List Job → Bool
has test [] = false
has test (j ∷ js) = test j.status || has test js

abbrev pub is_running : Status → Bool
is_running running = true
is_running _ = false

abbrev pub is_succeeded : Status → Bool
is_succeeded succeeded = true
is_succeeded _ = false

abbrev pub is_failed : Status → Bool
is_failed failed = true
is_failed _ = false

-- `activePromises.size >= parallelLimit`
unfoldable pub is_full : ℤ → List Job → Bool
is_full (pos limit) js = leb limit (length js)
is_full (negsuc n) js = true

unfoldable pub same : Task → Task → Bool
same t u =
    str_eq t.circuit u.circuit && elim t.is_batch [ true ↦ u.is_batch | false ↦ not u.is_batch ]

-- `activePromises.add` of a call that has just been made.
unfoldable pub start : Task → List Job → List Job
start t js = js ++ record { task = t; status = running; hooked = false } ∷ []

-- `promise.finally(() => activePromises.delete(promise))`
unfoldable pub hook : Task → List Job → List Job
hook t [] = []
hook t (j ∷ js) = (if same t j.task then record j { hooked = true } else j) ∷ hook t js

abbrev pub main_task : String → Task
main_task name = record { circuit = name; is_batch = false }

abbrev pub batch_task : String → Task
batch_task name = record { circuit = name; is_batch = true }

-- The code from one point where it may wait to the next.
unfoldable pub advance : Option (List String) → Point → List Job → Point × List Job
advance only (loop []) js = (all_active, js)
advance only (loop ((name, c) ∷ cs)) js =
    if is_selected only name
    then (after_main name c cs, start (main_task name) js)
    else (loop cs, js)
advance only (after_main name c cs) js =
    if is_set c.batch_ptau
    then (after_batch name cs, start (batch_task name) js)
    else (loop cs, hook (main_task name) js)
advance only (after_batch name cs) js = (loop cs, hook (main_task name) (hook (batch_task name) js))
advance only all_active js = (ended, js)
advance only p js = (p, js)

-- Whether the code goes on: `Promise.race` when the set is full, `Promise.all` at the end.
unfoldable pub may_go : ℤ → Point → List Job → Bool
may_go limit (loop cs) js = true
may_go limit (after_main name c cs) js = not (is_full limit js) || has is_succeeded js
may_go limit (after_batch name cs) js = not (is_full limit js) || has is_succeeded js
may_go limit all_active js = not (has is_running js) && not (has is_failed js)
may_go limit ended js = false
may_go limit (exited p) js = false

-- Whether the awaited promise may be rejected, which ends the process.
unfoldable pub may_reject : ℤ → Point → List Job → Bool
may_reject limit (after_main name c cs) js = is_full limit js && has is_failed js
may_reject limit (after_batch name cs) js = is_full limit js && has is_failed js
may_reject limit all_active js = has is_failed js
may_reject limit _ js = false

-- When the process has exited nothing happens any more.
abbrev pub has_exited : Point → Bool
has_exited (exited p) = true
has_exited _ = false

pub data Step (limit : ℤ) (only : Option (List String)) (w v : World) : Type 0 where
  go :
      may_go limit w.point w.active ≡ true
      → v ≡ record w {
        point = (advance only w.point w.active).0;
        active = (advance only w.point w.active).1;
      }
      → Step limit only w v
  reject :
      may_reject limit w.point w.active ≡ true
      → v ≡ record w { point = exited w.point }
      → Step limit only w v
  -- A call of `processCircuit` returns, or throws.
  settle :
      (front back : List Job) (j : Job) (s : Status)
      → has_exited w.point ≡ false
      → j.status ≡ running
      → is_running s ≡ false
      → w.active ≡ front ++ j ∷ back
      → v ≡ record w { active = front ++ record j { status = s } ∷ back }
      → Step limit only w v
  -- The callback of `finally` deletes the promise.
  delete :
      (front back : List Job) (j : Job)
      → has_exited w.point ≡ false
      → j.status ≡ succeeded
      → j.hooked ≡ true
      → w.active ≡ front ++ j ∷ back
      → v ≡ record w { active = front ++ back; finished = j.task ∷ w.finished }
      → Step limit only w v
  -- What `finally` returns is rejected too, and no code handles that.
  unhandled :
      (front back : List Job) (j : Job)
      → has_exited w.point ≡ false
      → j.status ≡ failed
      → j.hooked ≡ true
      → w.active ≡ front ++ j ∷ back
      → v ≡ record w { point = exited w.point }
      → Step limit only w v

pub data Reach (limit : ℤ) (only : Option (List String)) (w : World) : World → Type 0 where
  here : Reach limit only w w
  then_step : {u v : World} → Reach limit only w u → Step limit only u v → Reach limit only w v

abbrev pub initially : Circuits → World
initially cs = record { point = loop cs; active = []; finished = [] }
