-- ===== src/Memory/Page.antt =====
-- kernel/memory/page.{hpp,cpp}: page metadata. `initialize_pages` gives the page of index `i` the
-- address `i * PAGE_SIZE`, so a page is its index, and `pages` is the list of its statuses: `true` is
-- used.
pub mod Status
use uchos.Prelude.{
  ℕ, zero, suc, ◌+◌, ◌*◌, ◌-◌, ◌/◌, ◌%◌, ◌^◌, Bool, Option, none, some, List, [], ◌∷◌, length, set,
  leb, ◌==◌, if◌then◌else◌,
}

abbrev pub page_size : ℕ
page_size = 4096

-- On `size_t`.
abbrev pub pages_for_bytes : ℕ → ℕ
pages_for_bytes size = (size + (page_size - 1)) % 2 ^ 64 / page_size

abbrev pub ptr : ℕ → ℕ
ptr index = index * page_size

-- `none` is the null pointer.
unfoldable pub get_page : List Bool → ℕ → Option ℕ
get_page pages addr =
    if addr == 0
    then none
    else if leb (length pages) (addr / page_size)
    then none
    else some (addr / page_size)

-- `for (i = 0; i < n; ++i) pages[index + i].set_used()`, and `set_free()`. A write outside `pages`,
-- which the source leaves undefined, changes nothing here.
unfoldable pub set_status : List Bool → ℕ → ℕ → Bool → List Bool
set_status pages index zero status = pages
set_status pages index (suc n) status = set_status (set pages index status) (index + 1) n status
