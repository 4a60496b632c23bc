-- ===== src/Scheduler/Runs.antt =====
-- Runs of the scheduler of pkg/scheduler/scheduler.go: its methods, called in any order, each run to
-- its end before the next one begins.
use ling_framework.Base.{
  ℕ, ◌≡◌, ◌≢◌, refl, ap, ◌∙◌, true, false, Option, none, some, List, [], ◌∷◌, arith, Str,
  str_comparable, ==-refl, nat_beq_iff,
}
use ling_framework.Base.Dict.{fetch, delete, fetch-delete}
use ling_framework.Base.Time.{Time}
use ling_framework.Scheduler.{
  Task, CronOps, Scheduler, Parsers, add_task, remove_found, remove_task, enable_task,
  disable_found, disable_task, and_add, update_task, finish_task, load_tasks, new_scheduler,
}
use ling_framework.Scheduler.Scheduled.{IsScheduled}
use ling_framework.Scheduler.Steps.{
  Accepts, Addable, add_task-IsScheduled, remove_task-IsScheduled, disable_task-IsScheduled,
  finish_task-IsScheduled, enable_task-IsScheduled,
}

pub data Call (E : Type 0) : Type 0 where
  adds updates : Time → ℕ → Call E
  removes enables disables : Str → Call E
  finishes : Time → Time → Option E → ℕ → Call E

module _ {H E K : Type 0} (ops : CronOps K) (p : Parsers) where
  -- The scheduler after a call, and after some.
  abbrev pub call : Call E → Scheduler H E K → Scheduler H E K
  call (adds now at) s = (add_task ops p now at s).1
  call (updates now at) s = (update_task ops p now at s).1
  call (removes id) s = (remove_task ops p id s).1
  call (enables id) s = (enable_task ops p id s).1
  call (disables id) s = (disable_task ops p id s).1
  call (finishes start now error at) s = finish_task ops p start now error at s

  abbrev pub call_all : List (Call E) → Scheduler H E K → Scheduler H E K
  call_all [] s = s
  call_all (c ∷ cs) s = call_all cs (call c s)

  -- AddTask is for ids that are not in the map, and the cron accepts the schedules of the tasks
  -- that it is to run.
  abbrev pub Fits : Call E → Scheduler H E K → Type 0
  Fits (adds now at) s = Addable ops p at s
  Fits (updates now at) s =
      (s.objects at).enabled ≡ true
      → Accepts ops p at (s.objects at) (remove_task ops p (s.objects at).id s).1.cron
  Fits (removes id) s = Unit
  Fits (enables id) s =
      (at : ℕ)
      → fetch s.tasks id ≡ some at
      → (s.objects at).enabled ≡ false
      → Accepts ops p at (s.objects at) s.cron
  Fits (disables id) s = Unit
  Fits (finishes start now error at) s = Unit

  abbrev pub AllFit : List (Call E) → Scheduler H E K → Type 0
  AllFit [] s = Unit
  AllFit (c ∷ cs) s = Fits c s × AllFit cs (call c s)

  module _ (s : Scheduler H E K) (ok : IsScheduled ops s) where
    removed-Addable :
        (at : ℕ) (o : Option ℕ)
        → ((s.objects at).enabled ≡ true
            → Accepts ops p at (s.objects at) (remove_found ops p (s.objects at).id o s).1.cron)
        → IsScheduled ops (remove_found ops p (s.objects at).id o s).1
        → (now : Time)
        → IsScheduled ops (and_add ops p now at (remove_found ops p (s.objects at).id o s)).1
    removed-Addable at none fit ok' now = ok
    removed-Addable at (some a) fit ok' now =
        let id = (s.objects at).id in
        add_task-IsScheduled ops p (remove_found ops p id (some a) s).1 ok' now at
          (fetch-delete s.tasks id id ∙ rw (==-refl id) refl, fit)

    update_task-IsScheduled :
        (now : Time) (at : ℕ)
        → Fits (updates now at) s
        → IsScheduled ops (update_task ops p now at s).1
    unfolding update_task remove_task
    update_task-IsScheduled now at fit =
        let id = (s.objects at).id in
        removed-Addable at (fetch s.tasks id) fit (remove_task-IsScheduled ops p s ok id) now

    call-IsScheduled : (c : Call E) → Fits c s → IsScheduled ops (call c s)
    call-IsScheduled (adds now at) fit = add_task-IsScheduled ops p s ok now at fit
    call-IsScheduled (updates now at) fit = update_task-IsScheduled now at fit
    call-IsScheduled (removes id) fit = remove_task-IsScheduled ops p s ok id
    call-IsScheduled (enables id) fit = enable_task-IsScheduled ops p s ok id fit
    call-IsScheduled (disables id) fit = disable_task-IsScheduled ops p s ok id
    call-IsScheduled (finishes start now error at) fit =
        finish_task-IsScheduled ops p s ok start now error at

  call_all-IsScheduled :
      (cs : List (Call E)) (s : Scheduler H E K)
      → IsScheduled ops s
      → AllFit cs s
      → IsScheduled ops (call_all cs s)
  call_all-IsScheduled [] s ok fit = ok
  call_all-IsScheduled (c ∷ cs) s ok fit =
      call_all-IsScheduled cs (call c s) (call-IsScheduled s ok c fit.0) fit.1

  -- Take a new scheduler with an empty storage, a cron without entries and tasks that have no
  -- EntryID, and any sequence of calls of its methods, each run to its end before the next one
  -- begins, in which AddTask is called for ids that are not in the map and the cron accepts the
  -- schedules of the tasks that it is to run. Afterwards each entry of the cron runs a task that is
  -- enabled, stands in the map under its id and knows the entry as its EntryID; each enabled task
  -- of the map has such an entry; and no two entries run one task.
  pub call_all-new_scheduler :
      (now : Time) (objects : ℕ → Task H E) (k : K) (cs : List (Call E))
      → ((e : ℕ) → ops.entry k e ≡ none)
      → ((at : ℕ) → (objects at).entry_id ≡ none)
      → AllFit cs (new_scheduler ops p now objects [] k)
      → IsScheduled ops (call_all cs (new_scheduler ops p now objects [] k))
  unfolding fetch load_tasks
  call_all-new_scheduler now objects k cs idle unused fit =
      call_all-IsScheduled cs (new_scheduler ops p now objects [] k)
        (record {
          named = λ id at h. ground (arith, h);
          known = λ e at h. ground (arith, idle e, h);
          runs = λ id at h on. ground (arith, h);
          single = λ a b e h run. ground (arith, idle e, run);
          given = λ at e h. ground (arith, unused at, h);
        })
        fit

  remove_found-stops :
      (s : Scheduler H E K) (id : Str) (at e : ℕ) (o : Option ℕ)
      → o ≡ some at
      → (s.objects at).id ≡ id
      → IsScheduled ops (remove_found ops p id o s).1
      → ops.entry (remove_found ops p id o s).1.cron e ≢ some at
  remove_found-stops s id at e none there named ok run = ground (arith, there)
  remove_found-stops s id at e (some a) there named ok run = ground (
    arith,
    (ok.known e at run).0,
    ap (fetch (delete s.tasks id)) named,
    fetch-delete s.tasks id id,
    ==-refl id,
  )

  disable_found-stops :
      (s : Scheduler H E K) (at e : ℕ) (o : Option ℕ)
      → o ≡ some at
      → IsScheduled ops (disable_found ops p o s).1
      → ops.entry (disable_found ops p o s).1.cron e ≢ some at
  disable_found-stops s at e none there ok run = ground (arith, there)
  disable_found-stops s at e (some a) there ok run =
      ground (arith, there, (ok.known e at run).1, nat_beq_iff a at)

  -- After RemoveTask or DisableTask of a task of the map, no entry of the cron runs the task, where
  -- the scheduler was as call_all-new_scheduler states.
  pub remove_task-stops :
      (s : Scheduler H E K) (id : Str) (at e : ℕ)
      → IsScheduled ops s
      → fetch s.tasks id ≡ some at
      → (ops.entry (remove_task ops p id s).1.cron e ≢ some at)
        × (ops.entry (disable_task ops p id s).1.cron e ≢ some at)
  unfolding remove_task disable_task
  remove_task-stops s id at e ok there = (
    remove_found-stops s id at e (fetch s.tasks id) there (ok.named id at there)
        (remove_task-IsScheduled ops p s ok id),
    disable_found-stops s at e (fetch s.tasks id) there (disable_task-IsScheduled ops p s ok id),
  )
