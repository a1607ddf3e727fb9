-- ===== src/Examples/Net.antt =====
-- The network theorems at small packets and caches.
use uchos.Prelude.{
  ℕ, ◌/◌, ◌%◌, ◌≡◌, refl, true, false, ◌||◌, none, some, List, [], ◌∷◌, ◌++◌, ◌==◌, if◌then◌else◌,
  arith,
}
use uchos.Net.Checksum.{calculate_checksum}
use uchos.Net.Checksum.Verify.{calculate_checksum-append}
use uchos.Net.Arp.{ArpEntry, resolve, has_entry, add, remove}
use uchos.Net.Arp.Cache.{Unique, has_room, resolve_lem}

abbrev four_bytes : List ℕ
four_bytes = 69 ∷ 0 ∷ 255 ∷ 254 ∷ []

calculate_checksum-append_example :
    calculate_checksum
      (four_bytes ++ calculate_checksum four_bytes % 256 ∷ calculate_checksum four_bytes / 256 ∷ [])
    ≡ 0
calculate_checksum-append_example =
    calculate_checksum-append four_bytes (omega arith) refl (omega arith)

abbrev two_entries : List ArpEntry
two_entries =
    (record { ip_addr = 1; mac_addr = 10 ∷ []; valid = true })
    ∷ (record { ip_addr = 2; mac_addr = 20 ∷ []; valid = false })
    ∷ []

two_entries-Unique : Unique two_entries
two_entries-Unique ip = ground arith

resolve_example :
    ((ip : ℕ) (mac : List ℕ)
      → Unique (add two_entries ip mac)
        × ((q : ℕ)
            → resolve (add two_entries ip mac) q ≡ (
                if q == ip
                then (if has_entry two_entries ip || has_room two_entries then some mac else none)
                else resolve two_entries q)))
    × ((ip : ℕ)
        → Unique (remove two_entries ip)
          × ((q : ℕ)
              → resolve (remove two_entries ip) q
                ≡ (if q == ip then none else resolve two_entries q)))
resolve_example = resolve_lem two_entries two_entries-Unique
