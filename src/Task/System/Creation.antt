-- ===== src/Task/System/Creation.antt =====
-- The creation of a task: an empty slot is taken, which is not on the run queue.
use uchos.Prelude.{
  ℕ, suc, ◌+◌, ◌≡◌, refl, subst, ◌∙◌, Option, none, some, List, [], ◌∷◌, length-set, get_elem?,
  get_elem?-set_self, get_elem?-set_ne, get_elem?-lt, arith, ℕ_discrete, true, false, sym,
  Bool-cases, inl, inr, ap,
}
use uchos.Common.{ℤ, pos, negsuc, Message}
use uchos.Task.State.{Task, waiting, Kernel, task_at, put}
use uchos.Task.Scheduler.{first_empty, get_available_task_id, new_task, create_task, TaskMemory}
use uchos.Task.System.Invariant.{TaskOk, SlotOk, Inv}

first_empty_lem :
    (slots : List (Option Task)) (i d : ℕ)
    → first_empty slots i ≡ pos d
    → (j : ℕ) × (d ≡ i + j) × (get_elem? slots j ≡ some none)
unfolding first_empty
first_empty_lem [] i d e = absurd (cc e)
first_empty_lem (none ∷ slots) i d e = (0, ground (arith, e), refl)
first_empty_lem (some t ∷ slots) i d e =
    let (j, at, empty) = first_empty_lem slots (i + 1) d e in (suc j, omega (arith, at), empty)

-- The slot that is found is empty.
pub get_available_task_id_lem :
    (k : Kernel) (d : ℕ) → get_available_task_id k ≡ pos d → get_elem? k.tasks d ≡ some none
unfolding get_available_task_id
get_available_task_id_lem k d e =
    let (j, at, empty) = first_empty_lem k.tasks 0 d e in
    subst (λ x. get_elem? k.tasks x ≡ some none) (omega (arith, at)) empty

-- A new task in an empty slot.
fill-Inv :
    (k : Kernel) (d : ℕ) (t : Task)
    → Inv k
    → get_elem? k.tasks d ≡ some none
    → TaskOk k.run_queue d t
    → Inv (put k d t)
fill-Inv k d t v empty good = record {
  slots = λ e. elim (ℕ_discrete d e) [
    | yes same ↦
        subst (λ x. SlotOk k.run_queue x (task_at (put k d t) x)) same
          (rw (get_elem?-set_self k.tasks d (some t) (get_elem?-lt k.tasks d empty), task_at) good)
    | no other ↦ rw (get_elem?-set_ne k.tasks {i = d} {j = e} (some t) other, task_at) (v.slots e)
  ];
  distinct = v.distinct;
  sized = length-set k.tasks d (some t) ∙ v.sized;
}

new_task-ok :
    (q : List ℕ) (d : ℕ) (name : List ℕ) (storage : Option (List Message))
    → TaskOk q d (new_task (pos d) name waiting storage)
unfolding new_task
new_task-ok q d name storage = record {
  named = refl;
  calm = λ e. tt;
  queued = λ e. cc e;
  unqueued = λ e. cc e;
  alive = λ e. cc e;
  answered = λ e. cc;
}

pub create_task-full :
    (k : Kernel) (name : List ℕ) (given : TaskMemory) {n : ℕ}
    → get_available_task_id k ≡ negsuc n
    → create_task k name given ≡ some (k, none)
unfolding create_task
create_task-full k name given e = rw (e, create_task) refl

pub create_task-given :
    (k : Kernel) (name : List ℕ) (given : TaskMemory) {d : ℕ}
    → get_available_task_id k ≡ pos d
    → given.task ≡ true
    → create_task k name given ≡ some (put k d (new_task (pos d) name waiting given.ring), some d)
unfolding create_task
create_task-given k name given e there = rw (e, create_task) (rw there refl)

create_task-refused :
    (k : Kernel) (name : List ℕ) (given : TaskMemory) {d : ℕ}
    → get_available_task_id k ≡ pos d
    → given.task ≡ false
    → create_task k name given ≡ none
unfolding create_task
create_task-refused k name given e gone = rw (e, create_task) (rw gone refl)

create_at-Inv :
    (k : Kernel) (name : List ℕ) (given : TaskMemory) (id : ℤ) {k' : Kernel} {made : Option ℕ}
    → get_available_task_id k ≡ id
    → Inv k
    → create_task k name given ≡ some (k', made)
    → Inv k'
create_at-Inv k name given (negsuc n) {k'} {made} e v h =
    let same : some (k, none) ≡ some (k', made) = sym (create_task-full k name given e) ∙ h in
    let kept : k ≡ k' =
      ap (λ (o : Option (Kernel × Option ℕ)). elim o [ none ↦ k | some r ↦ r.0 ]) same in
    subst Inv kept v
create_at-Inv k name given (pos d) {k'} {made} e v h = elim (Bool-cases given.task) [
  | inl there ↦
      let t = new_task (pos d) name waiting given.ring in
      let same : some (put k d t, some d) ≡ some (k', made) =
        sym (create_task-given k name given e there) ∙ h in
      let kept : put k d t ≡ k' =
        ap (λ (o : Option (Kernel × Option ℕ)). elim o [ none ↦ k | some r ↦ r.0 ]) same in
      subst Inv kept (
        fill-Inv k d t v (get_available_task_id_lem k d e)
          (new_task-ok k.run_queue d name given.ring))
  | inr gone ↦
      let stuck : none ≡ some (k', made) = sym (create_task-refused k name given e gone) ∙ h in
      absurd (cc stuck)
]

-- A creation that ends keeps the invariant.
pub create_task-Inv :
    (k : Kernel) (name : List ℕ) (given : TaskMemory) {k' : Kernel} {made : Option ℕ}
    → Inv k
    → create_task k name given ≡ some (k', made)
    → Inv k'
create_task-Inv k name given v h = create_at-Inv k name given (get_available_task_id k) refl v h
