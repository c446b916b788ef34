-- ===== src/Build/Schedule/Progress.antt =====
-- That the loop of gen.js's `run` is never stuck.
use zeto.Base.{
  ℕ, zero, suc, ◌≤◌, ◌≡◌, ◌⊎◌, refl, ap, Bool, true, false, ◌&&◌, ◌||◌, not, Bool-cases, inl, inr,
  Option, List, [], ◌∷◌, ◌++◌, String, arith,
}
use zeto.Base.Int.{ℤ}
use zeto.Build.Settings.{Circuits, is_set, is_selected}
use zeto.Build.Schedule.{
  Task, Job, Point, World, has, is_running, is_succeeded, is_failed, is_full, start, main_task,
  batch_task, advance, may_go, may_reject, has_exited, Step, Reach, initially, running, succeeded,
  loop, after_main, after_batch, all_active, ended, exited, go, reject, settle, delete, unhandled,
  here, then_step,
}
use zeto.Build.Schedule.Finish.{weight, weight-Step}

-- Whether a promise of the set has no `finally` yet.
abbrev unhooked : List Job → Bool
unhooked [] = false
unhooked (j ∷ js) = not j.hooked || unhooked js

-- In front of a race there is such a promise, the one that has just been made.
abbrev HasOwn : Point → List Job → Type 0
HasOwn (after_main name c cs) js = unhooked js ≡ true
HasOwn (after_batch name cs) js = unhooked js ≡ true
HasOwn p js = Unit

abbrev pub IsOver : Point → Type 0
IsOver ended = Unit
IsOver (exited p) = Unit
IsOver p = ⊥

unhooked-append : (xs ys : List Job) → unhooked (xs ++ ys) ≡ (unhooked xs || unhooked ys)
unhooked-append [] ys = refl
unhooked-append (x ∷ xs) ys = ground (arith, unhooked-append xs ys)

unhooked-start : (t : Task) (js : List Job) → unhooked (start t js) ≡ true
unfolding start
unhooked-start t js =
    ground (arith, unhooked-append js (record { task = t; status = running; hooked = false } ∷ []))

HasOwn-advance :
    (only : Option (List String)) (p : Point) (js : List Job)
    → HasOwn (advance only p js).0 (advance only p js).1
unfolding advance
HasOwn-advance only (loop []) js = tt
HasOwn-advance only (loop ((name, c) ∷ cs)) js = elim (Bool-cases (is_selected only name)) [
  | inl e ↦ rw e (unhooked-start (main_task name) js)
  | inr e ↦ rw e tt
]
HasOwn-advance only (after_main name c cs) js = elim (Bool-cases (is_set c.batch_ptau)) [
  | inl e ↦ rw e (unhooked-start (batch_task name) js)
  | inr e ↦ rw e tt
]
HasOwn-advance only (after_batch name cs) js = tt
HasOwn-advance only all_active js = tt
HasOwn-advance only ended js = tt
HasOwn-advance only (exited p) js = tt

HasOwn-eq : (p : Point) (js ks : List Job) → unhooked js ≡ unhooked ks → HasOwn p js → HasOwn p ks
HasOwn-eq (loop cs) js ks e h = tt
HasOwn-eq (after_main name c cs) js ks e h = ground arith
HasOwn-eq (after_batch name cs) js ks e h = ground arith
HasOwn-eq all_active js ks e h = tt
HasOwn-eq ended js ks e h = tt
HasOwn-eq (exited p) js ks e h = tt

one_running :
    (js : List Job)
    → has is_running js ≡ true
    → (front back : List Job) × (j : Job) × (js ≡ front ++ j ∷ back) × (j.status ≡ running)
unfolding has
one_running [] h = absurd (ground arith)
one_running (j ∷ js) h = elim (Bool-cases (is_running j.status)) [
  | inl e ↦ ([], js, j, refl, ground arith)
  | inr e ↦
      let (front, back, k, eq, r) = one_running js (ground arith) in
      (j ∷ front, back, k, ap (λ l. j ∷ l) eq, r)
]

all_settled :
    (js : List Job)
    → unhooked js ≡ true
    → has is_running js ≡ false
    → (has is_succeeded js || has is_failed js) ≡ true
unfolding has
all_settled [] u h = ground arith
all_settled (j ∷ js) u h = ground arith

-- What can happen at a point, with a set of promises.
abbrev Next : ℤ → Option (List String) → World → Type 0
Next limit only w = (v : World) × Step limit only w v

settle_one :
    (limit : ℤ) (only : Option (List String)) (w : World)
    → has_exited w.point ≡ false
    → has is_running w.active ≡ true
    → Next limit only w
settle_one limit only w alive h =
    let (front, back, j, eq, r) = one_running w.active h in
    (
      record w { active = front ++ record j { status = succeeded } ∷ back },
      settle front back j succeeded alive r refl eq refl,
    )

-- A race with a promise that is the code's own is not waited for in vain.
race :
    (limit : ℤ) (only : Option (List String)) (w : World)
    → has_exited w.point ≡ false
    → (may_go limit w.point w.active ≡ (not (is_full limit w.active) || has is_succeeded w.active))
    → (may_reject limit w.point w.active ≡ (is_full limit w.active && has is_failed w.active))
    → unhooked w.active ≡ true
    → Next limit only w
race limit only w alive goes rejects own = elim (Bool-cases (has is_running w.active)) [
  | inl r ↦ settle_one limit only w alive r
  | inr r ↦
      let done : (has is_succeeded w.active || has is_failed w.active) ≡ true =
        all_settled w.active own r in
      elim (Bool-cases (not (is_full limit w.active) || has is_succeeded w.active)) [
        | inl g ↦ (_, go (ground (arith, goes)) refl)
        | inr g ↦ (_, reject (ground (arith, rejects)) refl)
      ]
]

next :
    (limit : ℤ) (only : Option (List String)) (p : Point) (js : List Job) (done : List Task)
    → HasOwn p js
    → IsOver p ⊎ Next limit only (record { point = p; active = js; finished = done })
unfolding may_go may_reject
next limit only (loop cs) js done own = inr (_, go refl refl)
next limit only (after_main name c cs) js done own = inr (
    race limit only (record { point = after_main name c cs; active = js; finished = done }) refl
      refl refl own)
next limit only (after_batch name cs) js done own = inr (
    race limit only (record { point = after_batch name cs; active = js; finished = done }) refl refl
      refl own)
next limit only all_active js done own = elim (Bool-cases (has is_running js)) [
  | inl r ↦
      inr
        (settle_one limit only (record { point = all_active; active = js; finished = done }) refl r)
  | inr r ↦ elim (Bool-cases (has is_failed js)) [
    | inl f ↦ inr (_, reject f refl)
    | inr f ↦ inr (_, go (ground arith) refl)
  ]
]
next limit only ended js done own = inl tt
next limit only (exited p) js done own = inl tt

module _ {limit : ℤ} {only : Option (List String)} where
  HasOwn-Step :
      {w v : World} → Step limit only w v → HasOwn w.point w.active → HasOwn v.point v.active
  HasOwn-Step {w = w} (go h e) own = rw e (HasOwn-advance only w.point w.active)
  HasOwn-Step {w = w} (reject h e) own = rw e tt
  HasOwn-Step {w = w} (settle front back j s alive r q a e) own = rw e (
      HasOwn-eq w.point w.active (front ++ record j { status = s } ∷ back)
        (rw a (
          ground (
            arith,
            unhooked-append front (j ∷ back),
            unhooked-append front (record j { status = s } ∷ back),
          )))
        own)
  HasOwn-Step {w = w} (delete front back j alive r q a e) own = rw e (
      HasOwn-eq w.point w.active (front ++ back)
        (rw a (ground (arith, unhooked-append front (j ∷ back), unhooked-append front back))) own)
  HasOwn-Step {w = w} (unhandled front back j alive r q a e) own = rw e tt

  HasOwn-Reach :
      {cs : Circuits} {w : World} → Reach limit only (initially cs) w → HasOwn w.point w.active
  HasOwn-Reach here = tt
  HasOwn-Reach (then_step r st) = HasOwn-Step st (HasOwn-Reach r)

  finish_within :
      (n : ℕ) (w u : World)
      → weight u ≤ n
      → HasOwn u.point u.active
      → Reach limit only w u
      → (v : World) × Reach limit only w v × IsOver v.point
  finish_within zero w u le own r = elim (next limit only u.point u.active u.finished own) [
    | inl over ↦ (u, r, over)
    | inr (v, st) ↦ absurd (omega (arith, weight-Step st))
  ]
  finish_within (suc n) w u le own r = elim (next limit only u.point u.active u.finished own) [
    | inl over ↦ (u, r, over)
    | inr (v, st) ↦
        finish_within n w v (omega (arith, weight-Step st)) (HasOwn-Step st own) (then_step r st)
  ]

  -- From wherever `run` has come to, whatever the limit and the outcomes so far, it can be brought to its
  -- end or to an exit of the process: it is never stuck in an await.
  pub run_never_stuck :
      (cs : Circuits) {w : World}
      → Reach limit only (initially cs) w
      → (v : World) × Reach limit only w v × IsOver v.point
  run_never_stuck cs {w = w} r = finish_within (weight w) w w (omega arith) (HasOwn-Reach r) here
