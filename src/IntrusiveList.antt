-- ===== src/IntrusiveList.antt =====
-- kernel/list.{hpp,cpp}: the doubly linked lists whose nodes lie inside other structures. A node is its
-- address, 0 being null, and the memory is the two links of every address. A walk that stops for want of
-- fuel is `none`.
pub mod Refine
pub mod Segment
use uchos.Prelude.{ℕ, zero, suc, ◌+◌, Bool, true, false, Option, none, some, ◌==◌, if◌then◌else◌}

pub record Links : Type 0 where
  pub prev : ℕ → ℕ
  pub next : ℕ → ℕ

abbrev pub write : (ℕ → ℕ) → ℕ → ℕ → ℕ → ℕ
write links node value i = if i == node then value else links i

unfoldable pub list_init : Links → ℕ → Links
list_init s list = record { prev = write s.prev list list; next = write s.next list list }

unfoldable pub list_elem_init : Links → ℕ → Links
list_elem_init s elem = record { prev = write s.prev elem 0; next = write s.next elem 0 }

unfoldable pub list_push_back : Links → ℕ → ℕ → Links
list_push_back s list elem =
    let end = s.prev list in
    record {
      prev = write (write s.prev elem end) list elem;
      next = write (write s.next end elem) elem list;
    }

-- `none` is the null pointer.
unfoldable pub list_pop_front : Links → ℕ → Links × Option ℕ
list_pop_front s list =
    let front = s.next list in
    let next = s.next front in
    if front == list
    then (s, none)
    else (record { prev = write s.prev next list; next = write s.next list next }, some front)

-- The walks, from `node` on.
unfoldable pub contains_from : ℕ → Links → ℕ → ℕ → ℕ → Option Bool
contains_from zero s list elem node = none
contains_from (suc fuel) s list elem node =
    let rest = contains_from fuel s list elem (s.next node) in
    if node == list then some false else if node == elem then some true else rest

unfoldable pub list_contains : ℕ → Links → ℕ → ℕ → Option Bool
list_contains fuel s list elem = contains_from fuel s list elem (s.next list)

unfoldable pub list_is_empty : Links → ℕ → Bool
list_is_empty s list = s.next list == list

unfoldable pub size_from : ℕ → Links → ℕ → ℕ → ℕ → Option ℕ
size_from zero s list node size = none
size_from (suc fuel) s list node size =
    let rest = size_from fuel s list (s.next node) (size + 1) in
    if node == list then some size else rest

unfoldable pub list_size : ℕ → Links → ℕ → Option ℕ
list_size fuel s list = size_from fuel s list (s.next list) 0
