-- ===== src/Scheduler/Stopped.antt =====
-- The invariant of the scheduler of pkg/scheduler/scheduler.go where a task is put in without an
-- entry, or is stopped.
use ling_framework.Base.{
  ℕ, ◌≡◌, ◌≢◌, sym, ap, ◌∙◌, false, none, some, arith, Str, str_comparable, nat_beq_iff, ◌==◌,
  if◌then◌else◌,
}
use ling_framework.Base.Dict.{Dict, fetch, delete, fetch-delete}
use ling_framework.Scheduler.{Task, CronOps, Scheduler, put_task, remove_entry}
use ling_framework.Scheduler.Scheduled.{
  IsScheduled, remove_entry-entry, runs_at-remove, remove_entry-issued,
}

module _ {H E K : Type 0} (ops : CronOps K) (s : Scheduler H E K) (at : ℕ) (t : Task H E)
    (tasks' storage' : Dict Str ℕ) (ok : IsScheduled ops s) where
  -- A task that is put into the map while it is switched off.
  pub place-IsScheduled :
      t.id ≡ (s.objects at).id
      → ((id : Str)
          → fetch tasks' id ≡ (if (s.objects at).id == id then some at else fetch s.tasks id))
      → ((a : ℕ) → fetch s.tasks (s.objects at).id ≡ some a → a ≡ at)
      → ((e : ℕ) → ops.entry s.cron e ≢ some at)
      → t.enabled ≡ false
      → t.entry_id ≡ (s.objects at).entry_id
      → IsScheduled ops (record {
        objects = put_task at t s.objects;
        tasks = tasks';
        storage = storage';
        cron = s.cron;
      })
  place-IsScheduled same_id same own idle off same_entry =
      let entry_at : (a : ℕ) → (put_task at t s.objects a).entry_id ≡ (s.objects a).entry_id =
        λ a. ground (arith, nat_beq_iff at a, ap (λ x. (s.objects x).entry_id), same_entry) in
      record {
        named = λ id a h. ground (
          arith,
          same id,
          ok.named id a,
          nat_beq_iff at a,
          str_comparable.same_iff (s.objects at).id id,
          h,
          same_id,
        );
        known = λ j a h. ground (
          arith,
          h,
          ok.known j a,
          idle j,
          own a,
          same (s.objects a).id,
          nat_beq_iff at a,
          str_comparable.same_iff (s.objects at).id (s.objects a).id,
        );
        runs = λ id a h on. ground (arith, same id, nat_beq_iff at a, ok.runs id a, h, on, off);
        single = λ a b e h. ok.single a b e (sym (entry_at a) ∙ h);
        given = λ a e h. ok.given a e (sym (entry_at a) ∙ h);
      }

  -- A task that leaves the map.
  pub remove-IsScheduled :
      (id : Str)
      → fetch s.tasks id ≡ some at
      → IsScheduled ops (record {
        objects = s.objects;
        tasks = delete s.tasks id;
        storage = storage';
        cron = remove_entry ops (s.objects at).entry_id s.cron;
      })
  remove-IsScheduled id there = record {
    named = λ j a h. ground (arith, fetch-delete s.tasks id j, ok.named j a, h);
    known = λ e a h.
        let old = remove_entry-entry ops e a s.cron (s.objects at).entry_id h in
        ground (
          arith,
          old,
          ok.known e a,
          there,
          fetch-delete s.tasks id (s.objects a).id,
          str_comparable.same_iff id (s.objects a).id,
          ap (fetch s.tasks),
          ap (λ x. (s.objects x).entry_id),
        );
    runs = λ j a h on. ground (
      arith,
      fetch-delete s.tasks id j,
      str_comparable.same_iff id j,
      ok.named id at there,
      ok.named j a,
      ap (λ x. (s.objects x).id),
      ok.runs j a,
      runs_at-remove ops at a s.cron (s.objects at).entry_id (s.objects a).entry_id
          (λ e. ok.single at a e),
      h,
      on,
    );
    single = λ a b e h run.
        ok.single a b e h (remove_entry-entry ops e b s.cron (s.objects at).entry_id run).0;
    given = λ a e h. remove_entry-issued ops e s.cron (s.objects at).entry_id ∙ ok.given a e h;
  }

  -- A task that is switched off.
  pub disable-IsScheduled :
      t.id ≡ (s.objects at).id
      → t.enabled ≡ false
      → t.entry_id ≡ none
      → IsScheduled ops (record {
        objects = put_task at t s.objects;
        tasks = s.tasks;
        storage = storage';
        cron = remove_entry ops (s.objects at).entry_id s.cron;
      })
  disable-IsScheduled same_id off gone = record {
    named = λ j a h.
        ground (arith, nat_beq_iff at a, ok.named j a h, ap (λ x. (s.objects x).id), same_id);
    known = λ e a h.
        let old = remove_entry-entry ops e a s.cron (s.objects at).entry_id h in
        ground (arith, old, ok.known e a, nat_beq_iff at a, ap (λ x. (s.objects x).entry_id));
    runs = λ j a h on. ground (
      arith,
      nat_beq_iff at a,
      ok.runs j a h,
      runs_at-remove ops at a s.cron (s.objects at).entry_id (s.objects a).entry_id
          (λ e. ok.single at a e),
      on,
      off,
    );
    single = λ a b e h run. ground (
      arith,
      nat_beq_iff at a,
      ok.single a b e,
      (remove_entry-entry ops e b s.cron (s.objects at).entry_id run).0,
      h,
      gone,
    );
    given = λ a e h. ground (
      arith,
      nat_beq_iff at a,
      remove_entry-issued ops e s.cron (s.objects at).entry_id,
      ok.given a e,
      h,
      gone,
    );
  }
