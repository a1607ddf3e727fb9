-- ===== src/Task/Boot/Spawning.antt =====
-- The tasks of the manifest are spawned one behind the other into the first empty slots.
use uchos.Prelude.{
  ℕ, zero, suc, ◌+◌, ◌<◌, ◌≤◌, ◌≡◌, refl, sym, ap, subst, ◌∙◌, Option, none, some, List, [], ◌∷◌,
  length, take, All, get_elem?, set, replicate, true, Bool-cases, inl, inr, ℕ_discrete, arith,
  lt→ltb, set-set, get_elem?-set_self, get_elem?-set_ne, get_elem?-lt,
}
use uchos.Common.{pos}
use uchos.Task.State.{Task, ready, waiting, Kernel, task_at, put, contains, max_tasks}
use uchos.Task.Scheduler.{
  create_task, schedule_task, make_ready, enqueue, first_empty, get_available_task_id, new_task,
}
use uchos.Task.Boot.{InitialTaskInfo, no_tasks, spawn_initial_task, spawn_all}
use uchos.Task.System.Slots.{task_at-put_self}
use uchos.Task.System.Invariant.{SlotOk, Inv}
use uchos.Task.System.Switching.{schedule_task-Inv}
use uchos.Task.System.Creation.{create_task-Inv, create_task-given}

pub empty_slots :
    (n d : ℕ) (o : Option (Option Task))
    → get_elem? (replicate n none) d ≡ o
    → elim o as (λ x. Option Task) [ none ↦ none | some slot ↦ slot ] ≡ none
empty_slots n d none e = refl
empty_slots zero d (some slot) e = cc e
empty_slots (suc n) zero (some slot) e = cc e
empty_slots (suc n) (suc d) (some slot) e = empty_slots n d (some slot) e

no_tasks-Inv : Inv no_tasks
no_tasks-Inv = record {
  slots = λ d.
      subst (λ o. SlotOk [] d o)
        (sym (empty_slots max_tasks d (get_elem? (replicate max_tasks none) d) refl)) refl;
  distinct = tt;
  sized = refl;
}

empty_at : (n d : ℕ) → d < n → get_elem? {A = Option Task} (replicate n none) d ≡ some none
empty_at zero d h = absurd (omega (arith, h))
empty_at (suc n) zero h = refl
empty_at (suc n) (suc d) h = empty_at n d (omega (arith, h))

-- The first slot that is empty is the one behind the taken ones.
first_empty-behind :
    (slots : List (Option Task)) (i n : ℕ)
    → ((j : ℕ) → j < n → (t : Task) × (get_elem? slots j ≡ some (some t)))
    → get_elem? slots n ≡ some none
    → first_empty slots i ≡ pos (i + n)
unfolding first_empty
first_empty-behind [] i n taken e = absurd (cc e)
first_empty-behind (none ∷ slots) i zero taken e = ap pos (omega arith)
first_empty-behind (none ∷ slots) i (suc n) taken e =
    let (t, stuck) = taken 0 (omega arith) in absurd (cc stuck)
first_empty-behind (some t ∷ slots) i zero taken e = absurd (cc e)
first_empty-behind (some t ∷ slots) i (suc n) taken e =
    first_empty-behind slots (i + 1) n (λ j lt. taken (suc j) (omega (arith, lt))) e
    ∙ ap pos (omega arith)

enqueue-tasks : (k : Kernel) (d : ℕ) → (enqueue k d).tasks ≡ k.tasks
unfolding enqueue
enqueue-tasks k d = elim (Bool-cases (contains k.run_queue d)) [
  | inl old ↦ rw old refl
  | inr new ↦ rw new refl
]

schedule_task-tasks :
    (k : Kernel) (d : ℕ) (t : Task)
    → d < max_tasks
    → task_at k d ≡ some t
    → (schedule_task k (pos d)).tasks ≡ set k.tasks d (some (record t { state = ready }))
unfolding schedule_task make_ready
schedule_task-tasks k d t lt at =
    rw (lt→ltb d max_tasks lt, schedule_task)
      (rw (at, make_ready) (enqueue-tasks (put k d (record t { state = ready })) d))

-- The first `n` tasks of the manifest are in the first `n` slots, ready; the others are empty.
pub record Spawned (all : List InitialTaskInfo) (n : ℕ) (k : Kernel) : Type 0 where
  pub invariant : Inv k
  pub held :
      (i : ℕ)
      → i < n
      → (t : Task) × (get_elem? k.tasks i ≡ some (some t))
        × (t.state ≡ ready)
        × ((info : InitialTaskInfo) → get_elem? all i ≡ some info → t.name ≡ take 31 info.name)
  pub vacant : (i : ℕ) → n ≤ i → i < max_tasks → get_elem? k.tasks i ≡ some none

pub no_tasks-Spawned : (all : List InitialTaskInfo) → Spawned all 0 no_tasks
no_tasks-Spawned all = record {
  invariant = no_tasks-Inv;
  held = λ i lt. absurd (omega (arith, lt));
  vacant = λ i le lt. empty_at max_tasks i lt;
}

module _ (all : List InitialTaskInfo) (n : ℕ) (k : Kernel) (info : InitialTaskInfo)
    (s : Spawned all n k) (lt : n < max_tasks) (here : get_elem? all n ≡ some info)
    (given : info.given.task ≡ true) where
  abbrev spawned : Task
  spawned = new_task (pos n) info.name waiting info.given.ring

  abbrev k_created : Kernel
  k_created = put k n spawned

  abbrev k_after : Kernel
  k_after = schedule_task k_created (pos n)

  within : n < length k.tasks
  within = get_elem?-lt k.tasks n (s.vacant n (omega arith) lt)

  available : get_available_task_id k ≡ pos n
  unfolding get_available_task_id
  available =
      first_empty-behind k.tasks 0 n (λ j h. let r = s.held j h in (r.0, r.1))
        (s.vacant n (omega arith) lt)
      ∙ ap pos (omega arith)

  created : create_task k info.name info.given ≡ some (k_created, some n)
  created = create_task-given k info.name info.given available given

  tasks_after : k_after.tasks ≡ set k.tasks n (some (record spawned { state = ready }))
  tasks_after =
      schedule_task-tasks k_created n spawned lt (task_at-put_self k n spawned within)
      ∙ set-set k.tasks n (some spawned) (some (record spawned { state = ready }))

  spawn_initial_task-some : spawn_initial_task k info ≡ some k_after
  unfolding spawn_initial_task
  spawn_initial_task-some = rw (created, spawn_initial_task) refl

  next-held :
      (i : ℕ)
      → i < n + 1
      → (t : Task) × (get_elem? k_after.tasks i ≡ some (some t))
        × (t.state ≡ ready)
        × ((x : InitialTaskInfo) → get_elem? all i ≡ some x → t.name ≡ take 31 x.name)
  unfolding new_task
  next-held i le = elim (ℕ_discrete n i) [
    | yes same ↦ (
      record spawned { state = ready },
      rw tasks_after (
          subst
            (λ j.
              get_elem? (set k.tasks n (some (record spawned { state = ready }))) j
              ≡ some (some (record spawned { state = ready })))
            same (get_elem?-set_self k.tasks n (some (record spawned { state = ready })) within)),
      refl,
      λ x e.
          let known : some info ≡ some x = sym here ∙ ap (get_elem? all) same ∙ e in
          let it : info ≡ x = cc in ap (λ (y : InitialTaskInfo). take 31 y.name) it,
    )
    | no other ↦
        let (t, at, state, named) = s.held i (omega (arith, le, λ (e : i ≡ n). other (sym e))) in
        (t, rw tasks_after (get_elem?-set_ne k.tasks {i = n} {j = i} _ other ∙ at), state, named)
  ]

  next-Spawned : Spawned all (n + 1) k_after
  next-Spawned = record {
    invariant =
        schedule_task-Inv k_created (pos n)
          (create_task-Inv k info.name info.given s.invariant created);
    held = next-held;
    vacant = λ i le h. rw tasks_after (
        get_elem?-set_ne k.tasks {i = n} {j = i} _ (λ e. omega (arith, e, le))
        ∙ s.vacant i (omega (arith, le)) h);
  }

pub spawn_all-Spawned :
    (all rest : List InitialTaskInfo) (n : ℕ) (k : Kernel)
    → Spawned all n k
    → n + length rest ≤ max_tasks
    → ((j : ℕ) (x : InitialTaskInfo) → get_elem? rest j ≡ some x → get_elem? all (n + j) ≡ some x)
    → All (λ info. info.given.task ≡ true) rest
    → (k' : Kernel) × (spawn_all k rest ≡ some k') × Spawned all (n + length rest) k'
unfolding spawn_all
spawn_all-Spawned all [] n k s room part given =
    (k, refl, subst (λ m. Spawned all m k) (omega arith) s)
spawn_all-Spawned all (info ∷ rest) n k s room part given =
    let lt : n < max_tasks = omega (arith, room) in
    let start : n + 0 ≡ n = omega arith in
    let here : get_elem? all n ≡ some info =
      subst (λ m. get_elem? all m ≡ some info) start (part 0 info refl) in
    let (k', run, s') =
      spawn_all-Spawned all rest (n + 1) (k_after all n k info s lt here given.0)
        (next-Spawned all n k info s lt here given.0) (omega (arith, room))
        (λ j x e. subst (λ m. get_elem? all m ≡ some x) (omega arith) (part (suc j) x e)) given.1 in
    (
      k',
      rw (spawn_initial_task-some all n k info s lt here given.0, spawn_all) run,
      subst (λ m. Spawned all m k') (omega arith) s',
    )
