-- ===== src/Task/System/Slots.antt =====
-- What a write to one slot of `tasks` does to the others.
use uchos.Prelude.{
  ℕ, ◌<◌, ◌≡◌, ◌≢◌, refl, sym, ap, ◌∙◌, Option, none, some, length, get_elem?, get_elem?-set_self,
  get_elem?-set_ne, get_elem?-lt, Option-cases, inl, inr, set-set,
}
use uchos.Task.State.{Task, Kernel, task_at, put}

module _ (k : Kernel) (d : ℕ) where
  pub task_at-lt : {t : Task} → task_at k d ≡ some t → d < length k.tasks
  task_at-lt {t} h = elim (Option-cases (get_elem? k.tasks d)) [
    | inl e ↦ cc (sym h ∙ ap (λ (o : Option (Option Task)). elim o [ none ↦ none | some x ↦ x ]) e)
    | inr (o, e) ↦ get_elem?-lt k.tasks d e
  ]

  pub task_at-put_self : (t : Task) → d < length k.tasks → task_at (put k d t) d ≡ some t
  task_at-put_self t h = rw (get_elem?-set_self k.tasks d (some t) h, task_at) refl

  pub task_at-put_ne : (t : Task) (e : ℕ) → d ≢ e → task_at (put k d t) e ≡ task_at k e
  task_at-put_ne t e ne = rw (get_elem?-set_ne k.tasks {i = d} {j = e} (some t) ne, task_at) refl

  pub put-put : (t u : Task) → put (put k d t) d u ≡ put k d u
  put-put t u = ap (λ slots. record k { tasks = slots }) (set-set k.tasks d (some t) (some u))
