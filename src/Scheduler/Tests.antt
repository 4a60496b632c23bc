-- ===== src/Scheduler/Tests.antt =====
-- The scheduler of pkg/scheduler/scheduler.go over a cron that numbers its entries, and its theorems
-- at concrete inputs.
use ling_framework.Base.{
  ℕ, ◌+◌, ◌≡◌, ◌≢◌, refl, Bool, true, false, Option, none, some, List, [], ◌∷◌, arith, Str,
  str_comparable, number_comparable, codes, ltb, nat_beq, if◌then◌else◌, inr, ◌==◌, not,
}
use ling_framework.Base.Dict.{Dict, fetch, store, delete, fetch-store, fetch-delete}
use ling_framework.Base.Int.{wrap64, ◌+ℤ◌, ◌-ℤ◌}
use ling_framework.Scheduler.{
  Task, CronOps, Scheduler, Parsers, add_task, remove_task, enable_task, disable_task, update_task,
  finish_task, load_tasks, new_scheduler, load, get_task, parse_cron_schedule,
}
use ling_framework.Scheduler.Hash.{hash_from, hash_string, should_execute}
use ling_framework.Scheduler.Scheduled.{IsScheduled}
use ling_framework.Scheduler.Runs.{
  Call, adds, updates, removes, enables, disables, finishes, call_all, AllFit,
  call_all-new_scheduler, remove_task-stops,
}

-- A cron that gives out the numbers in turn, and takes the schedules that pass a test.
pub record Counting : Type 0 where
  pub next : ℕ
  pub table : Dict ℕ ℕ

abbrev counting_entry : Counting → ℕ → Option ℕ
counting_entry k e = if ltb e k.next then fetch k.table e else none

abbrev counting_add : (Str → Bool) → Str → ℕ → Counting → Option ℕ × Counting
counting_add takes text a k =
    if takes text
    then (some k.next, record { next = k.next + 1; table = store k.table k.next a })
    else (none, k)

module _ (takes : Str → Bool) where
  counting_add-entry :
      (s : Str) (a e : ℕ) (k : Counting)
      → (counting_add takes s a k).0 ≡ some e
      → (j : ℕ)
      → counting_entry (counting_add takes s a k).1 j
        ≡ (if nat_beq e j then some a else counting_entry k j)
  counting_add-entry s a e k h j = ground (arith, fetch-store k.table k.next j a, h)

  abbrev counting : CronOps Counting
  counting = record {
    add = counting_add takes;
    remove = λ e k. record k { table = delete k.table e };
    entry = counting_entry;
    issued = λ k e. ltb e k.next;
    add-fresh = λ s a e k h. ground (arith, h);
    add-entry = counting_add-entry;
    add-issued = λ s a e k h j. ground (arith, h);
    entry-issued = λ k j a h. ground (arith, h);
    remove-entry = λ e k j. ground (arith, fetch-delete k.table e j);
    remove-issued = λ e k j. refl;
  }

abbrev cron : CronOps Counting
cron = counting (λ text. not (text == codes "5 fields"))

abbrev no_entries : Counting
no_entries = record { next = 1; table = [] }

abbrev parsers : Parsers
parsers = record { parse_standard = λ s. some (λ now. now + 60); parse_seconds = λ s. none }

abbrev task : Str → Str → Bool → Task (Unit {0}) ℕ
task id schedule enabled = record {
  id = id;
  schedule = schedule;
  handler = some tt;
  handler_func = none;
  enabled = enabled;
  last_run = none;
  next_run = none;
  entry_id = none;
  last_duration = none;
  last_error = none;
}

-- The task `report` in two versions, and `sweep`, which is switched off.
abbrev tasks : ℕ → Task (Unit {0}) ℕ
tasks at =
    if nat_beq at 0
    then task (codes "report") (codes "@daily") true
    else (if nat_beq at 1
        then task (codes "sweep") (codes "@hourly") false
        else task (codes "report") (codes "@weekly") true)

abbrev calls : List (Call ℕ)
calls =
    adds 10 0
    ∷ adds 11 1
    ∷ enables (codes "sweep")
    ∷ updates 12 2
    ∷ finishes 13 14 none 0
    ∷ disables (codes "sweep")
    ∷ []

abbrev at_start : Scheduler (Unit {0}) ℕ Counting
at_start = new_scheduler cron parsers 9 tasks [] no_entries

calls_fit : AllFit cron parsers calls at_start
unfolding fetch load_tasks add_task enable_task update_task remove_task parse_cron_schedule store
calls_fit = (
  (refl, λ on h. ground (arith, h)),
  (
    (refl, λ on h. ground (arith, h)),
    (λ at there off h. ground (arith, h), (λ on h. ground (arith, h), (tt, (tt, tt)))),
  ),
)

call_all-new_scheduler_example : IsScheduled cron (call_all cron parsers calls at_start)
unfolding fetch
call_all-new_scheduler_example =
    call_all-new_scheduler cron parsers 9 tasks no_entries calls (λ e. ground arith)
      (λ at. ground arith) calls_fit

started : IsScheduled cron (call_all cron parsers calls at_start)
unfolding fetch
started =
    call_all-new_scheduler cron parsers 9 tasks no_entries calls (λ e. ground arith)
      (λ at. ground arith) calls_fit

remove_task-stops_example :
    (cron.entry
        (remove_task cron parsers (codes "report") (call_all cron parsers calls at_start)).1.cron
        3
      ≢ some 2)
    × (cron.entry
          (disable_task cron parsers (codes "report") (call_all cron parsers calls at_start)).1.cron
          3
        ≢ some 2)
unfolding fetch load_tasks add_task enable_task update_task remove_task disable_task finish_task
    parse_cron_schedule store delete
remove_task-stops_example =
    remove_task-stops cron parsers (call_all cron parsers calls at_start) (codes "report") 2 3
      started refl

-- Before, it does run: the second version of the task is the third entry.
report_runs : cron.entry (call_all cron parsers calls at_start).cron 3 ≡ some 2
unfolding fetch load_tasks add_task enable_task update_task remove_task disable_task finish_task
    store delete parse_cron_schedule
report_runs = refl

-- AddTask with an id that the map has: the entry of the first task goes on, and RemoveTask does not
-- stop it.
added_twice :
    cron.entry
      (call_all cron parsers (adds 10 0 ∷ adds 11 2 ∷ removes (codes "report") ∷ []) at_start).cron
      1
    ≡ some 0
unfolding fetch load_tasks add_task enable_task update_task remove_task disable_task finish_task
    store delete parse_cron_schedule
added_twice = refl

-- The end of an execution that RemoveTask came before puts the task into the storage again.
removed_while_running :
    load (codes "report") (
      call_all cron parsers
        (adds 10 0 ∷ removes (codes "report") ∷ finishes 11 12 none 0 ∷ [])
        at_start)
    ≡ inr 0
unfolding fetch load_tasks add_task enable_task update_task remove_task disable_task finish_task
    store delete parse_cron_schedule load
removed_while_running = refl

-- A schedule that parses but that the cron refuses: AddTask fails, and the task stands in the map.
refused_stays :
    get_task
      (codes "bad")
      (add_task cron parsers 10 0 (
        new_scheduler cron parsers 9
          (λ at. task (codes "bad") (codes "5 fields") true)
          []
          no_entries)).1
    ≡ inr 0
unfolding fetch load_tasks add_task enable_task get_task store delete parse_cron_schedule
refused_stays = refl

-- A task of hash 97 runs on a node of hash 98, and not on one of hash 33.
distributed :
    (should_execute (codes "a") (codes "b") ≡ true)
    × (should_execute (codes "a") (codes "!") ≡ false)
unfolding should_execute hash_string hash_from wrap64 ◌+ℤ◌ ◌-ℤ◌
distributed = (refl, refl)
