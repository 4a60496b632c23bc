-- ===== src/Scheduler/Steps.antt =====
-- Every method of the scheduler of pkg/scheduler/scheduler.go keeps the invariant.
use ling_framework.Base.{
  ℕ, ◌≡◌, ◌≢◌, refl, sym, ap, ◌∙◌, true, false, ◌&&◌, not, Option, none, some, [], arith, Str,
  str_comparable, nat_beq_iff, ◌==◌, if◌then◌else◌, if_holds, subst,
}
use ling_framework.Base.Dict.{Dict, fetch, store, delete, fetch-store, is_some}
use ling_framework.Base.Time.{Time}
use ling_framework.Scheduler.{
  Task, CronOps, Scheduler, Parsers, Result, put_task, save, put_entry, add_entry, add_parsed,
  add_task, remove_found, remove_task, enable_found, enable_task, disable_found, disable_task,
  finish_task, parse_cron_schedule,
}
use ling_framework.Scheduler.Scheduled.{IsScheduled, put-IsScheduled, start-IsScheduled}
use ling_framework.Scheduler.Stopped.{place-IsScheduled, remove-IsScheduled, disable-IsScheduled}

module _ {H E : Type 0} where
  put_same : (at : ℕ) (t : Task H E) (objects : ℕ → Task H E) → put_task at t objects at ≡ t
  put_same at t objects = ground (arith, nat_beq_iff at at)

  put_twice :
      (at : ℕ) (t t' : Task H E) (objects : ℕ → Task H E)
      → put_task at t' objects ≡ put_task at t' (put_task at t objects)
  put_twice at t t' objects =
      let pointwise : (j : ℕ)
          → put_task at t' objects j ≡ put_task at t' (put_task at t objects) j =
        λ j. ground arith in
      λ i j. pointwise j i

module _ {H E K : Type 0} (ops : CronOps K) (p : Parsers) where
  -- The cron accepts the schedule of a task.
  abbrev pub Accepts : ℕ → Task H E → K → Type 0
  Accepts at t k = (ops.add t.schedule at k).0 ≢ none

  module _ (s : Scheduler H E K) (at : ℕ) (t : Task H E) (tasks' : Dict Str ℕ)
      (ok : IsScheduled ops s) (same_id : t.id ≡ (s.objects at).id)
      (same : (id : Str)
        → fetch tasks' id ≡ (if (s.objects at).id == id then some at else fetch s.tasks id))
      (own : (a : ℕ) → fetch s.tasks (s.objects at).id ≡ some a → a ≡ at)
      (idle : (e : ℕ) → ops.entry s.cron e ≢ some at) (on : t.enabled ≡ true) where
    put_entry-IsScheduled :
        (text : Str) (o : Option ℕ)
        → (ops.add text at s.cron).0 ≡ o
        → o ≢ none
        → IsScheduled ops
            (put_entry ops p at o (record {
              objects = put_task at t s.objects;
              tasks = tasks';
              storage = s.storage;
              cron = (ops.add text at s.cron).1;
            })).1
    put_entry-IsScheduled text none added some_e = absurd (some_e refl)
    put_entry-IsScheduled text (some e) added some_e =
        let at_it = put_same at t s.objects in
        let t' : Task H E = record (put_task at t s.objects at) { entry_id = some e } in
        subst
          (λ objects. IsScheduled ops (record {
            objects = objects;
            tasks = tasks';
            storage = store s.storage (put_task at t' (put_task at t s.objects) at).id at;
            cron = (ops.add text at s.cron).1;
          }))
          (put_twice at t t' s.objects)
          (start-IsScheduled ops s at t' tasks'
            (store s.storage (put_task at t' (put_task at t s.objects) at).id at) ok
            (ap (λ x. x.id) at_it ∙ same_id) same own idle e text (ap (λ x. x.enabled) at_it ∙ on)
            refl added)

    add_entry-IsScheduled :
        Accepts at t s.cron
        → IsScheduled ops
            (add_entry ops p at (record s { objects = put_task at t s.objects; tasks = tasks' })).1
    add_entry-IsScheduled accepts =
        let text = (put_task at t s.objects at).schedule in
        put_entry-IsScheduled text (ops.add text at s.cron).0 refl (λ refused.
          accepts
            (ap (λ x. (ops.add x.schedule at s.cron).0) (sym (put_same at t s.objects)) ∙ refused))

  -- AddTask of a task whose id is not in the map, and whose schedule the cron accepts.
  abbrev pub Addable : ℕ → Scheduler H E K → Type 0
  Addable at s =
      (fetch s.tasks (s.objects at).id ≡ none)
      × ((s.objects at).enabled ≡ true → Accepts at (s.objects at) s.cron)

  module _ (s : Scheduler H E K) (ok : IsScheduled ops s) where
    add_parsed-IsScheduled :
        (now : Time) (at : ℕ) (o : Option (Time → Time))
        → Addable at s
        → IsScheduled ops (add_parsed ops p now at o s).1
    add_parsed-IsScheduled now at none fit = ok
    add_parsed-IsScheduled now at (some next) fit =
        let t : Task H E = record (s.objects at) { next_run = some (next now) } in
        let tasks' = store s.tasks (s.objects at).id at in
        let same : (id : Str)
            → fetch tasks' id ≡ (if (s.objects at).id == id then some at else fetch s.tasks id) =
          λ id. fetch-store s.tasks (s.objects at).id id at in
        let own : (a : ℕ) → fetch s.tasks (s.objects at).id ≡ some a → a ≡ at =
          λ a h. ground (arith, fit.0, h) in
        let idle : (e : ℕ) → ops.entry s.cron e ≢ some at =
          λ e h. ground (arith, fit.0, (ok.known e at h).0) in
        if_holds (λ (r : Result H E K). IsScheduled ops r.1) t.enabled
          (add_entry ops p at (record s { objects = put_task at t s.objects; tasks = tasks' }))
          (none, save at (record s { objects = put_task at t s.objects; tasks = tasks' }))
          (λ on. add_entry-IsScheduled s at t tasks' ok refl same own idle on (fit.1 on))
          (λ off.
            place-IsScheduled ops s at t tasks' (store s.storage (put_task at t s.objects at).id at)
              ok refl same own idle off refl)

    pub add_task-IsScheduled :
        (now : Time) (at : ℕ) → Addable at s → IsScheduled ops (add_task ops p now at s).1
    unfolding add_task
    add_task-IsScheduled now at fit =
        let t = s.objects at in
        let P = λ (r : Result H E K). IsScheduled ops r.1 in
        if_holds P (t.id == []) _ _ (λ x. ok)
          (λ x.
            if_holds P (t.schedule == []) _ _ (λ y. ok)
              (λ y.
                if_holds P (not (is_some t.handler) && not (is_some t.handler_func)) _ _ (λ z. ok)
                  (λ z. add_parsed-IsScheduled now at (parse_cron_schedule p t.schedule) fit)))

    remove_found-IsScheduled :
        (id : Str) (o : Option ℕ)
        → fetch s.tasks id ≡ o
        → IsScheduled ops (remove_found ops p id o s).1
    remove_found-IsScheduled id none there = ok
    remove_found-IsScheduled id (some at) there =
        remove-IsScheduled ops s at (s.objects at) s.tasks (delete s.storage id) ok id there

    pub remove_task-IsScheduled : (id : Str) → IsScheduled ops (remove_task ops p id s).1
    unfolding remove_task
    remove_task-IsScheduled id = remove_found-IsScheduled id (fetch s.tasks id) refl

    disable_found-IsScheduled : (o : Option ℕ) → IsScheduled ops (disable_found ops p o s).1
    disable_found-IsScheduled none = ok
    disable_found-IsScheduled (some at) =
        let t : Task H E = record (s.objects at) { enabled = false; entry_id = none } in
        disable-IsScheduled ops s at t s.tasks (store s.storage (put_task at t s.objects at).id at)
          ok refl refl refl

    pub disable_task-IsScheduled : (id : Str) → IsScheduled ops (disable_task ops p id s).1
    unfolding disable_task
    disable_task-IsScheduled id = disable_found-IsScheduled (fetch s.tasks id)

    pub finish_task-IsScheduled :
        (start now : Time) (error : Option E) (at : ℕ)
        → IsScheduled ops (finish_task ops p start now error at s)
    unfolding finish_task
    finish_task-IsScheduled start now error at =
        put-IsScheduled ops s at _ s.tasks _ ok refl refl refl

    -- EnableTask, where the cron accepts the schedule of the task if it was not enabled.
    abbrev pub Enableable : Str → Type 0
    Enableable id =
        (at : ℕ)
        → fetch s.tasks id ≡ some at
        → (s.objects at).enabled ≡ false
        → Accepts at (s.objects at) s.cron

    enable_found-IsScheduled :
        (id : Str) (o : Option ℕ)
        → fetch s.tasks id ≡ o
        → Enableable id
        → IsScheduled ops (enable_found ops p o s).1
    enable_found-IsScheduled id none there fit = ok
    enable_found-IsScheduled id (some at) there fit =
        let t : Task H E = record (s.objects at) { enabled = true } in
        let s' : Scheduler H E K = record s { objects = put_task at t s.objects } in
        let named = ok.named id at there in
        let same : (j : Str)
            → fetch s.tasks j ≡ (if (s.objects at).id == j then some at else fetch s.tasks j) =
          λ j. ground (
            arith,
            there,
            named,
            str_comparable.same_iff (s.objects at).id j,
            ap (fetch s.tasks),
          ) in
        let own : (a : ℕ) → fetch s.tasks (s.objects at).id ≡ some a → a ≡ at =
          λ a h. ground (arith, ap (fetch s.tasks) named, h, there) in
        if_holds (λ (r : Result H E K). IsScheduled ops r.1) (s.objects at).enabled
          (none, save at s') (add_entry ops p at s')
          (λ on. put-IsScheduled ops s at t s.tasks _ ok refl (sym on) refl)
          (λ off.
            add_entry-IsScheduled s at t s.tasks ok refl same own
              (λ e h. ground (arith, off, (ok.known e at h).1)) refl (fit at there off))

    pub enable_task-IsScheduled :
        (id : Str) → Enableable id → IsScheduled ops (enable_task ops p id s).1
    unfolding enable_task
    enable_task-IsScheduled id fit = enable_found-IsScheduled id (fetch s.tasks id) refl fit
