-- ===== src/Scheduler/Scheduled.antt =====
-- The invariant of the scheduler of pkg/scheduler/scheduler.go: cron runs the tasks that are in the
-- map and enabled, each once. And the changes of the state that keep it.
use ling_framework.Base.{
  ℕ, ◌≡◌, ◌≢◌, refl, sym, ap, ◌∙◌, true, Option, none, some, arith, Str, str_comparable,
  nat_beq_iff, ◌==◌, if◌then◌else◌,
}
use ling_framework.Base.Dict.{Dict, fetch}
use ling_framework.Scheduler.{Task, CronOps, Scheduler, put_task, remove_entry}

module _ {K : Type 0} (ops : CronOps K) where
  -- The task that runs under a task's EntryID.
  abbrev pub runs_at : K → Option ℕ → Option ℕ
  runs_at k none = none
  runs_at k (some e) = ops.entry k e

  runs_at-add :
      (text : Str) (b e a : ℕ) (k : K) (o : Option ℕ)
      → (ops.add text b k).0 ≡ some e
      → runs_at k o ≡ some a
      → runs_at (ops.add text b k).1 o ≡ some a
  runs_at-add text b e a k none added h = h
  runs_at-add text b e a k (some j) added h = ground (
    arith,
    ops.add-entry text b e k added j,
    ops.add-fresh text b e k added,
    ops.entry-issued k j a h,
    nat_beq_iff e j,
    ap (λ x. ops.issued k x),
  )

  pub remove_entry-entry :
      (e a : ℕ) (k : K) (o : Option ℕ)
      → ops.entry (remove_entry ops o k) e ≡ some a
      → (ops.entry k e ≡ some a) × (o ≢ some e)
  remove_entry-entry e a k none h = (h, λ x. ground (arith, x))
  remove_entry-entry e a k (some j) h = ground (arith, ops.remove-entry j k e, nat_beq_iff j e, h)

  pub runs_at-remove :
      (at a : ℕ) (k : K) (o o' : Option ℕ)
      → ((e : ℕ) → o ≡ some e → ops.entry k e ≡ some a → a ≡ at)
      → a ≢ at
      → runs_at k o' ≡ some a
      → runs_at (remove_entry ops o k) o' ≡ some a
  runs_at-remove at a k none o' single other h = h
  runs_at-remove at a k (some e) none single other h = h
  runs_at-remove at a k (some e) (some j) single other h =
      ground
        (arith, ops.remove-entry e k j, nat_beq_iff e j, single e refl, ap (ops.entry k), h, other)

  pub remove_entry-issued :
      (e : ℕ) (k : K) (o : Option ℕ) → ops.issued (remove_entry ops o k) e ≡ ops.issued k e
  remove_entry-issued e k none = refl
  remove_entry-issued e k (some j) = ops.remove-issued j k e

module _ {H E K : Type 0} (ops : CronOps K) where
  pub record IsScheduled (s : Scheduler H E K) : Type 0 where
    pub named : (id : Str) (at : ℕ) → fetch s.tasks id ≡ some at → (s.objects at).id ≡ id
    pub known :
        (e at : ℕ)
        → ops.entry s.cron e ≡ some at
        → (fetch s.tasks (s.objects at).id ≡ some at)
          × ((s.objects at).enabled ≡ true)
          × ((s.objects at).entry_id ≡ some e)
    pub runs :
        (id : Str) (at : ℕ)
        → fetch s.tasks id ≡ some at
        → (s.objects at).enabled ≡ true
        → runs_at ops s.cron (s.objects at).entry_id ≡ some at
    pub single : (a b e : ℕ) → (s.objects a).entry_id ≡ some e → ops.entry s.cron e ≡ some b → b ≡ a
    pub given : (at e : ℕ) → (s.objects at).entry_id ≡ some e → ops.issued s.cron e ≡ true

  module _ (s : Scheduler H E K) (at : ℕ) (t : Task H E) (tasks' storage' : Dict Str ℕ)
      (ok : IsScheduled s) (same_id : t.id ≡ (s.objects at).id) where
    -- A change of a task that leaves its switch and its entry.
    pub put-IsScheduled :
        t.enabled ≡ (s.objects at).enabled
        → t.entry_id ≡ (s.objects at).entry_id
        → IsScheduled (record s { objects = put_task at t s.objects; storage = storage' })
    put-IsScheduled same_switch same_entry =
        let id_at : (a : ℕ) → (put_task at t s.objects a).id ≡ (s.objects a).id =
          λ a. ground (arith, nat_beq_iff at a, ap (λ x. (s.objects x).id), same_id) in
        let on_at : (a : ℕ) → (put_task at t s.objects a).enabled ≡ (s.objects a).enabled =
          λ a. ground (arith, nat_beq_iff at a, ap (λ x. (s.objects x).enabled), same_switch) in
        let entry_at : (a : ℕ) → (put_task at t s.objects a).entry_id ≡ (s.objects a).entry_id =
          λ a. ground (arith, nat_beq_iff at a, ap (λ x. (s.objects x).entry_id), same_entry) in
        record {
          named = λ id a h. id_at a ∙ ok.named id a h;
          known = λ e a h. (
            ap (fetch s.tasks) (id_at a) ∙ (ok.known e a h).0,
            on_at a ∙ (ok.known e a h).1,
            entry_at a ∙ (ok.known e a h).2,
          );
          runs = λ id a h on.
              ap (runs_at ops s.cron) (entry_at a) ∙ ok.runs id a h (sym (on_at a) ∙ on);
          single = λ a b e h. ok.single a b e (sym (entry_at a) ∙ h);
          given = λ a e h. ok.given a e (sym (entry_at a) ∙ h);
        }

    module _
        (same : (id : Str)
          → fetch tasks' id ≡ (if (s.objects at).id == id then some at else fetch s.tasks id))
        (own : (a : ℕ) → fetch s.tasks (s.objects at).id ≡ some a → a ≡ at)
        (idle : (e : ℕ) → ops.entry s.cron e ≢ some at) where
      -- A task in the map that is switched on, with a new entry.
      pub start-IsScheduled :
          (e : ℕ) (text : Str)
          → t.enabled ≡ true
          → t.entry_id ≡ some e
          → (ops.add text at s.cron).0 ≡ some e
          → IsScheduled (record {
            objects = put_task at t s.objects;
            tasks = tasks';
            storage = storage';
            cron = (ops.add text at s.cron).1;
          })
      start-IsScheduled e text on entered added = record {
        named = λ id a h. ground (
          arith,
          same id,
          ok.named id a,
          nat_beq_iff at a,
          str_comparable.same_iff (s.objects at).id id,
          h,
        );
        known = λ j a h. ground (
          arith,
          h,
          ops.add-entry text at e s.cron added j,
          ok.known j a,
          idle j,
          own a,
          same (s.objects a).id,
          same (s.objects at).id,
          nat_beq_iff at a,
          nat_beq_iff e j,
          str_comparable.same_iff (s.objects at).id (s.objects a).id,
          str_comparable.same_iff (s.objects at).id (s.objects at).id,
        );
        runs = λ id a h on'. ground (
          arith,
          same id,
          nat_beq_iff at a,
          runs_at-add ops text at e a s.cron (s.objects a).entry_id added,
          ok.runs id a,
          ops.add-entry text at e s.cron added e,
          nat_beq_iff e e,
          ap (runs_at ops (ops.add text at s.cron).1) entered,
          h,
          on',
        );
        single = λ a b j h run. ground (
          arith,
          nat_beq_iff at a,
          nat_beq_iff e j,
          ok.single a b j,
          ok.given a j,
          ops.add-fresh text at e s.cron added,
          ops.add-entry text at e s.cron added j,
          ap (ops.issued s.cron),
          entered,
          h,
          run,
        );
        given = λ a j h. ground (
          arith,
          nat_beq_iff at a,
          nat_beq_iff e j,
          ok.given a j,
          ops.add-issued text at e s.cron added j,
          entered,
          h,
        );
      }
