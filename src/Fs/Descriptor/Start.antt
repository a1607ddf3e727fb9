-- ===== src/Fs/Descriptor/Start.antt =====
-- The descriptors of a new process.
use uchos.Prelude.{
  ℕ, zero, suc, ◌<◌, ◌≤◌, ◌≡◌, refl, ap, ◌∙◌, subst, none, some, List, [], ◌∷◌, length, length-set,
  set, lt→ltb, ◌==◌, ==_refl, ==_false, if◌then◌else◌, arith, ℕ_discrete,
}
use uchos.Common.{pos, shell_id}
use uchos.Fs.Descriptor.{
  FdRoute, FileDescriptor, clear_all, set_console, stdin_name, stdout_name, stderr_name,
  init_process_fd_table, used_entry, get_process_fd,
}
use uchos.Fs.Descriptor.Lookup.{get-set_self, get-set_ne}

abbrev pub console_entry : List ℕ → FileDescriptor
console_entry name = record { name = name; route = FdRoute.console; dest = shell_id; handle = 0 }

get-clear_all : (t : List FileDescriptor) (fd : ℕ) → get_process_fd (clear_all t) (pos fd) ≡ none
unfolding get_process_fd clear_all used_entry
get-clear_all [] fd = refl
get-clear_all (e ∷ es) zero = refl
get-clear_all (e ∷ es) (suc fd) = get-clear_all es fd

length-clear_all : (t : List FileDescriptor) → length (clear_all t) ≡ length t
unfolding clear_all
length-clear_all [] = refl
length-clear_all (e ∷ es) = ap suc (length-clear_all es)

length-set_console :
    (t : List FileDescriptor) (fd : ℕ) (name : List ℕ)
    → fd < length t
    → length (set_console t fd name) ≡ length t
unfolding set_console
length-set_console t fd name h =
    rw (lt→ltb fd (length t) h, set_console) (length-set t fd (console_entry name))

get-set_console :
    (t : List FileDescriptor) (fd : ℕ) (c : ℕ) (cs : List ℕ) (other : ℕ)
    → fd < length t
    → get_process_fd (set_console t fd (c ∷ cs)) (pos other)
      ≡ (if fd == other then some (console_entry (c ∷ cs)) else get_process_fd t (pos other))
unfolding set_console used_entry
get-set_console t fd c cs other h =
    rw (lt→ltb fd (length t) h, set_console)
      (elim (ℕ_discrete fd other) [
        | yes same ↦
            subst
              (λ x.
                get_process_fd (set t fd (console_entry (c ∷ cs))) (pos x)
                ≡ (if fd == x then some (console_entry (c ∷ cs)) else get_process_fd t (pos x)))
              same (rw (==_refl fd) (get-set_self t fd (console_entry (c ∷ cs)) h))
        | no apart ↦
            rw (==_false fd other apart) (get-set_ne t fd other (console_entry (c ∷ cs)) apart)
      ])

-- In a table of at least three entries, the initialisation routes the three standard descriptors to
-- the console of the shell, under their names, and leaves every other descriptor unused.
pub init_process_fd_table_lem :
    (t : List FileDescriptor) (fd : ℕ)
    → 3 ≤ length t
    → get_process_fd (init_process_fd_table t) (pos fd) ≡ (
        if 2 == fd
        then some (console_entry stderr_name)
        else if 1 == fd
        then some (console_entry stdout_name)
        else if 0 == fd
        then some (console_entry stdin_name)
        else none)
unfolding init_process_fd_table
init_process_fd_table_lem t fd h =
    let t0 = clear_all t in
    let t1 = set_console t0 0 stdin_name in
    let t2 = set_console t1 1 stdout_name in
    let n0 : length t0 ≡ length t = length-clear_all t in
    let n1 : length t1 ≡ length t0 = length-set_console t0 0 stdin_name (omega (arith, h, n0)) in
    let n2 : length t2 ≡ length t1 =
      length-set_console t1 1 stdout_name (omega (arith, h, n0, n1)) in
    get-set_console t2 2 115 (116 ∷ 100 ∷ 101 ∷ 114 ∷ 114 ∷ []) fd (omega (arith, h, n0, n1, n2))
    ∙ ap (λ o. if 2 == fd then some (console_entry stderr_name) else o)
        (get-set_console t1 1 115 (116 ∷ 100 ∷ 111 ∷ 117 ∷ 116 ∷ []) fd (omega (arith, h, n0, n1))
          ∙ ap (λ o. if 1 == fd then some (console_entry stdout_name) else o)
              (get-set_console t0 0 115 (116 ∷ 100 ∷ 105 ∷ 110 ∷ []) fd (omega (arith, h, n0))
                ∙ ap (λ o. if 0 == fd then some (console_entry stdin_name) else o)
                    (get-clear_all t fd)))
