-- ===== src/Scheduler.antt =====
-- pkg/scheduler/scheduler.go over the MemoryStorage. Tasks are shared pointers: addresses into
-- `objects`, which holds every task that the program makes. The library robfig/cron is the
-- interface `CronOps`; H are the handlers and E their errors. A method is one step. (EnableTask,
-- DisableTask and UpdateTask give up their locks in between, where other calls could come; these
-- interleavings are left out.)
pub mod Hash
pub mod Scheduled
pub mod Stopped
pub mod Steps
pub mod Runs
mod Tests
use ling_framework.Base.{
  ℕ, ◌≡◌, Bool, true, false, ◌&&◌, ◌||◌, not, Option, none, some, List, [], ◌∷◌, Str,
  str_comparable, nat_beq, ◌==◌, if◌then◌else◌, ◌⊎◌, inl, inr,
}
use ling_framework.Base.Dict.{Dict, fetch, store, delete, is_some}
use ling_framework.Base.Time.{Time, Duration, sub_time}

pub record Task (H E : Type 0) : Type 0 where
  pub id : Str
  pub schedule : Str
  pub handler : Option H
  pub handler_func : Option H
  pub enabled : Bool
  pub last_run : Option Time
  pub next_run : Option Time
  pub entry_id : Option ℕ
  pub last_duration : Option Duration
  pub last_error : Option E

-- cron.Cron, as far as the scheduler uses it. `add` is AddFunc with the text of a schedule and the
-- address of the task that the function executes; `entry` is what runs under an EntryID, and
-- `issued` tells which numbers were given out.
pub record CronOps (K : Type 0) : Type 0 where
  pub add : Str → ℕ → K → Option ℕ × K
  pub remove : ℕ → K → K
  pub entry : K → ℕ → Option ℕ
  pub issued : K → ℕ → Bool
  pub add-fresh : (s : Str) (a e : ℕ) (k : K) → (add s a k).0 ≡ some e → issued k e ≡ false
  pub add-entry :
      (s : Str) (a e : ℕ) (k : K)
      → (add s a k).0 ≡ some e
      → (j : ℕ) → entry (add s a k).1 j ≡ (if nat_beq e j then some a else entry k j)
  pub add-issued :
      (s : Str) (a e : ℕ) (k : K)
      → (add s a k).0 ≡ some e
      → (j : ℕ) → issued (add s a k).1 j ≡ (nat_beq e j || issued k j)
  pub entry-issued : (k : K) (j a : ℕ) → entry k j ≡ some a → issued k j ≡ true
  pub remove-entry :
      (e : ℕ) (k : K) (j : ℕ) → entry (remove e k) j ≡ (if nat_beq e j then none else entry k j)
  pub remove-issued : (e : ℕ) (k : K) (j : ℕ) → issued (remove e k) j ≡ issued k j

pub record Scheduler (H E K : Type 0) : Type 0 where
  pub objects : ℕ → Task H E
  pub tasks : Dict Str ℕ
  pub storage : Dict Str ℕ
  pub cron : K

pub data SchedulerError : Type 0 where
  id_required schedule_required handler_required invalid_cron cron_refused : SchedulerError
  task_not_found : SchedulerError

-- The library's two parsers of a schedule, and the next instant of one.
pub record Parsers : Type 0 where
  pub parse_standard : Str → Option (Time → Time)
  pub parse_seconds : Str → Option (Time → Time)

-- parseCronSchedule
unfoldable pub parse_cron_schedule : Parsers → Str → Option (Time → Time)
parse_cron_schedule p schedule = elim (p.parse_standard schedule) [
  | none ↦ p.parse_seconds schedule
  | some next ↦ some next
]

module _ {H E : Type 0} where
  -- A write through a pointer to a task.
  abbrev pub put_task : ℕ → Task H E → (ℕ → Task H E) → ℕ → Task H E
  put_task at t objects j = if nat_beq at j then t else objects j

  abbrev pub next_run_of : Parsers → Time → Task H E → Option Time
  next_run_of p now t = elim (parse_cron_schedule p t.schedule) [
    | none ↦ t.next_run
    | some next ↦ some (next now)
  ]

  abbrev pub next_run_at : Parsers → Time → Option Time → Task H E → Option Time
  next_run_at p now none t = next_run_of p now t
  next_run_at p now (some at) t = some at

module _ {H E K : Type 0} where
  -- MemoryStorage.Save and Delete, which never fail.
  abbrev pub save : ℕ → Scheduler H E K → Scheduler H E K
  save at s = record s { storage = store s.storage (s.objects at).id at }

  abbrev pub delete_stored : Str → Scheduler H E K → Scheduler H E K
  delete_stored id s = record s { storage = delete s.storage id }

  -- MemoryStorage.Load
  unfoldable pub load : Str → Scheduler H E K → SchedulerError ⊎ ℕ
  load id s = elim (fetch s.storage id) [ none ↦ inl task_not_found | some at ↦ inr at ]

  -- GetTask
  unfoldable pub get_task : Str → Scheduler H E K → SchedulerError ⊎ ℕ
  get_task id s = elim (fetch s.tasks id) [ none ↦ inl task_not_found | some at ↦ inr at ]

  -- GetNextRunTime
  unfoldable pub get_next_run_time :
      Parsers → Time → Str → Scheduler H E K → SchedulerError ⊎ Option Time
  get_next_run_time p now id s = elim (get_task id s) [
    | inl err ↦ inl err
    | inr at ↦ inr (next_run_at p now (s.objects at).next_run (s.objects at))
  ]

-- The tasks of LoadAll.
abbrev pub values : Dict Str ℕ → List ℕ
values [] = []
values ((id, at) ∷ m) = at ∷ values m

-- What a method leaves: its error and the scheduler.
abbrev pub Result : Type 0 → Type 0 → Type 0 → Type 0
Result H E K = Option SchedulerError × Scheduler H E K

module _ {K : Type 0} (ops : CronOps K) where
  -- The removal of a task's entry, if it has one.
  abbrev pub remove_entry : Option ℕ → K → K
  remove_entry none k = k
  remove_entry (some e) k = ops.remove e k

module _ {H E K : Type 0} (ops : CronOps K) (p : Parsers) where
  -- The outcome of AddFunc: the number goes into the task's metadata.
  abbrev pub put_entry : ℕ → Option ℕ → Scheduler H E K → Result H E K
  put_entry at none s = (some cron_refused, s)
  put_entry at (some e) s = (
    none,
    save at (record s {
      objects = put_task at (record (s.objects at) { entry_id = some e }) s.objects;
    }),
  )

  abbrev pub add_entry : ℕ → Scheduler H E K → Result H E K
  add_entry at s =
      let added = ops.add (s.objects at).schedule at s.cron in
      put_entry at added.0 (record s { cron = added.1 })

  -- AddTask from the parsed schedule on.
  abbrev pub add_parsed : Time → ℕ → Option (Time → Time) → Scheduler H E K → Result H E K
  add_parsed now at none s = (some invalid_cron, s)
  add_parsed now at (some next) s =
      let t : Task H E = record (s.objects at) { next_run = some (next now) } in
      let s' : Scheduler H E K = record s {
        objects = put_task at t s.objects;
        tasks = store s.tasks (s.objects at).id at;
      } in
      if t.enabled then add_entry at s' else (none, save at s')

  abbrev pub add_checked : Time → ℕ → Task H E → Scheduler H E K → Result H E K
  add_checked now at t s =
      if t.id == []
      then (some id_required, s)
      else (if t.schedule == []
          then (some schedule_required, s)
          else (if not (is_some t.handler) && not (is_some t.handler_func)
              then (some handler_required, s)
              else add_parsed now at (parse_cron_schedule p t.schedule) s))

  -- AddTask
  unfoldable pub add_task : Time → ℕ → Scheduler H E K → Result H E K
  add_task now at s = add_checked now at (s.objects at) s

  abbrev pub remove_found : Str → Option ℕ → Scheduler H E K → Result H E K
  remove_found id none s = (some task_not_found, s)
  remove_found id (some at) s = (
    none,
    delete_stored id (record s {
      cron = remove_entry ops (s.objects at).entry_id s.cron;
      tasks = delete s.tasks id;
    }),
  )

  -- RemoveTask
  unfoldable pub remove_task : Str → Scheduler H E K → Result H E K
  remove_task id s = remove_found id (fetch s.tasks id) s

  abbrev pub enable_found : Option ℕ → Scheduler H E K → Result H E K
  enable_found none s = (some task_not_found, s)
  enable_found (some at) s =
      let t = s.objects at in
      let s' : Scheduler H E K = record s {
        objects = put_task at (record t { enabled = true }) s.objects;
      } in
      if t.enabled then (none, save at s') else add_entry at s'

  -- EnableTask
  unfoldable pub enable_task : Str → Scheduler H E K → Result H E K
  enable_task id s = enable_found (fetch s.tasks id) s

  abbrev pub disable_found : Option ℕ → Scheduler H E K → Result H E K
  disable_found none s = (some task_not_found, s)
  disable_found (some at) s =
      let t = s.objects at in
      (
        none,
        save at (record s {
          objects = put_task at (record t { enabled = false; entry_id = none }) s.objects;
          cron = remove_entry ops t.entry_id s.cron;
        }),
      )

  -- DisableTask
  unfoldable pub disable_task : Str → Scheduler H E K → Result H E K
  disable_task id s = disable_found (fetch s.tasks id) s

  abbrev pub and_add : Time → ℕ → Result H E K → Result H E K
  and_add now at (none, s) = add_task now at s
  and_add now at (some err, s) = (some err, s)

  -- UpdateTask
  unfoldable pub update_task : Time → ℕ → Scheduler H E K → Result H E K
  update_task now at s = and_add now at (remove_task (s.objects at).id s)

  -- The writes at the end of executeTask, which began at `start`, with the error of the handler.
  -- Other steps may come between its beginning and its end.
  unfoldable pub finish_task : Time → Time → Option E → ℕ → Scheduler H E K → Scheduler H E K
  finish_task start now error at s =
      let t = s.objects at in
      let done : Task H E = record t {
        last_run = some now;
        next_run = next_run_of p now t;
        last_duration = some (sub_time now start);
        last_error = error;
      } in
      save at (record s { objects = put_task at done s.objects })

  -- Whether executeTask goes on to the handler; `runs_here` is the answer of shouldExecute, true
  -- outside of the distributed mode.
  abbrev pub executes : Bool → ℕ → Scheduler H E K → Bool
  executes runs_here at s = (s.objects at).enabled && runs_here

  -- loadTasksFromStorage; errors of AddTask are only logged.
  unfoldable pub load_tasks : Time → List ℕ → Scheduler H E K → Scheduler H E K
  load_tasks now [] s = s
  load_tasks now (at ∷ loaded) s =
      load_tasks now loaded (if (s.objects at).enabled then (add_task now at s).1 else s)

  -- NewScheduler, on what a storage holds; the map of LoadAll is in the order of the range.
  abbrev pub new_scheduler : Time → (ℕ → Task H E) → Dict Str ℕ → K → Scheduler H E K
  new_scheduler now objects storage k =
      load_tasks now (values storage)
        (record { objects = objects; tasks = []; storage = storage; cron = k })
