-- ===== src/Net/Arp.antt =====
-- kernel/net/arp.{hpp,cpp}: the cache of hardware addresses. A table is its entries in order.
pub mod Cache
use uchos.Prelude.{
  ℕ, ◌+◌, Bool, true, false, ◌&&◌, ◌||◌, not, Option, none, some, List, [], ◌∷◌, map, replicate,
  ◌==◌, if◌then◌else◌,
}

pub record ArpEntry : Type 0 where
  pub ip_addr : ℕ
  pub mac_addr : List ℕ
  pub valid : Bool

abbrev pub max_entries : ℕ
max_entries = 32

abbrev pub is_for : ArpEntry → ℕ → Bool
is_for e ip_addr = e.valid && e.ip_addr == ip_addr

-- `none` is the result `false`.
unfoldable pub resolve : List ArpEntry → ℕ → Option (List ℕ)
resolve [] ip_addr = none
resolve (e ∷ es) ip_addr = if is_for e ip_addr then some e.mac_addr else resolve es ip_addr

-- Whether the first loop of `add` finds an entry, and what it does to it.
abbrev pub has_entry : List ArpEntry → ℕ → Bool
has_entry [] ip_addr = false
has_entry (e ∷ es) ip_addr = is_for e ip_addr || has_entry es ip_addr

unfoldable pub update : List ArpEntry → ℕ → List ℕ → List ArpEntry
update [] ip_addr mac_addr = []
update (e ∷ es) ip_addr mac_addr =
    if is_for e ip_addr
    then (record e { mac_addr = mac_addr }) ∷ es
    else e ∷ update es ip_addr mac_addr

-- The first empty slot is filled; without one nothing changes.
unfoldable pub fill_slot : List ArpEntry → ℕ → List ℕ → List ArpEntry
fill_slot [] ip_addr mac_addr = []
fill_slot (e ∷ es) ip_addr mac_addr =
    if not e.valid
    then (record { ip_addr = ip_addr; mac_addr = mac_addr; valid = true }) ∷ es
    else e ∷ fill_slot es ip_addr mac_addr

unfoldable pub add : List ArpEntry → ℕ → List ℕ → List ArpEntry
add entries ip_addr mac_addr =
    if has_entry entries ip_addr
    then update entries ip_addr mac_addr
    else fill_slot entries ip_addr mac_addr

unfoldable pub remove : List ArpEntry → ℕ → List ArpEntry
remove [] ip_addr = []
remove (e ∷ es) ip_addr =
    if is_for e ip_addr then (record e { valid = false }) ∷ es else e ∷ remove es ip_addr

-- What the constructor leaves, too.
unfoldable pub clear : List ArpEntry
clear = replicate max_entries (record { ip_addr = 0; mac_addr = replicate 6 0; valid = false })
