-- ===== src/Task/Boot/Invariant.antt =====
-- What `initialize` leaves: a well-formed kernel, in which each task of the manifest is in its slot and
-- ready to run.
use uchos.Prelude.{
  ℕ, zero, suc, ◌+◌, ◌<◌, ◌≤◌, ◌≡◌, refl, sym, subst, ◌∙◌, some, List, ◌++◌, length, take, All,
  get_elem?, true, ℕ_discrete, arith, ◌==◌, if◌then◌else◌, ==_false, get_elem?-lt,
}
use uchos.Task.State.{Task, running, ready, Kernel, task_at, put, max_tasks}
use uchos.Task.Scheduler.{TaskMemory}
use uchos.Task.Boot.{InitialTaskInfo, no_tasks, scheduler_tasks, adopt, initialize}
use uchos.Task.System.Slots.{task_at-put_self, task_at-put_ne}
use uchos.Task.System.Invariant.{Inv, task-ok, put-Inv}
use uchos.Task.Boot.Spawning.{Spawned, no_tasks-Spawned, spawn_all-Spawned}

-- Each task of the manifest is in the slot of its place, by its name, and ready; the first one runs.
abbrev pub Booted : List InitialTaskInfo → Kernel → Type 0
Booted all k =
    (i : ℕ) (info : InitialTaskInfo)
    → get_elem? all i ≡ some info
    → (t : Task) × (task_at k i ≡ some t)
      × (t.name ≡ take 31 info.name)
      × (t.state ≡ (if i == 0 then running else ready))

-- The boot task stays on the run queue while it runs.
adopt-Booted :
    (all : List InitialTaskInfo) (k : Kernel)
    → 0 < length all
    → Spawned all (length all) k
    → (k' : Kernel) × (adopt k ≡ some k')
      × Inv k'
      × (k'.current ≡ 0)
      × (k'.idle ≡ 1)
      × Booted all k'
unfolding adopt
adopt-Booted all k some_task s =
    let (t, at_slot, state, named) = s.held 0 some_task in
    let at : task_at k 0 ≡ some t = rw (at_slot, task_at) refl in
    let within = get_elem?-lt k.tasks 0 at_slot in
    let good = task-ok k 0 t s.invariant at in
    let t' = record t { state = running } in
    let w = put-Inv k 0 t s.invariant at t' (record {
      named = good.named;
      calm = λ e. cc e;
      queued = λ e. cc e;
      unqueued = λ e ne. absurd (ne refl);
      alive = λ e. cc e;
      answered = good.answered;
    }) in
    (
      record (put k 0 t') { current = 0; idle = 1 },
      rw (at, adopt) refl,
      record { slots = w.slots; distinct = w.distinct; sized = w.sized },
      refl,
      refl,
      λ i info e. elim (ℕ_discrete 0 i) [
        | yes same ↦
            let first : i ≡ 0 = sym same in
            rw first (t', task_at-put_self k 0 t' within, named info (rw (← first) e), refl)
        | no other ↦
            let (u, there, state', named') = s.held i (get_elem?-lt all i e) in
            (
              u,
              task_at-put_ne k 0 t' i other ∙ rw (there, task_at) refl,
              named' info e,
              rw (==_false i 0 (λ z. other (sym z))) state',
            )
      ],
    )

-- With memory for each task, and at most as many tasks of the manifest and of the scheduler as there are
-- slots: `initialize` succeeds, and leaves a kernel that has the invariant of the task table and the run
-- queue, in which each of these tasks is in the slot of its place, by its name, and ready, but for the
-- first one, which is the current one and running.
pub initialize-Inv :
    (main idle : TaskMemory) (services : List InitialTaskInfo)
    → main.task ≡ true
    → idle.task ≡ true
    → All (λ info. info.given.task ≡ true) services
    → length services + 2 ≤ max_tasks
    → (k : Kernel) × (initialize main idle services ≡ some k)
      × Inv k
      × (k.current ≡ 0)
      × (k.idle ≡ 1)
      × Booted (scheduler_tasks main idle ++ services) k
unfolding initialize
initialize-Inv main idle services main_given idle_given given room =
    let all = scheduler_tasks main idle ++ services in
    let (k, run, s) =
      spawn_all-Spawned all (scheduler_tasks main idle) 0 no_tasks (no_tasks-Spawned all)
        (omega arith) (own main idle services) (main_given, (idle_given, tt)) in
    let (k', run', s') =
      spawn_all-Spawned all services 2 k s (omega (arith, room))
        (λ j x e. later main idle services j x e) given in
    let whole : 2 + length services ≡ length all = omega arith in
    let (k'', adopted, inv, current, idle_slot, booted) =
      adopt-Booted all k' (omega arith) (subst (λ m. Spawned all m k') whole s') in
    (k'', rw (initialize, run) (rw run' adopted), inv, current, idle_slot, booted)
  where
    own :
        (main idle : TaskMemory) (services : List InitialTaskInfo) (j : ℕ) (x : InitialTaskInfo)
        → get_elem? (scheduler_tasks main idle) j ≡ some x
        → get_elem? (scheduler_tasks main idle ++ services) (0 + j) ≡ some x
    own main idle services zero x e = e
    own main idle services (suc zero) x e = e
    own main idle services (suc (suc j)) x e = absurd (cc e)

    later :
        (main idle : TaskMemory) (services : List InitialTaskInfo) (j : ℕ) (x : InitialTaskInfo)
        → get_elem? services j ≡ some x
        → get_elem? (scheduler_tasks main idle ++ services) (2 + j) ≡ some x
    later main idle services j x e = let behind : 2 + j ≡ suc (suc j) = omega arith in rw behind e
