-- ===== src/Net/Arp/Cache.antt =====
-- The cache answers as a map from addresses to hardware addresses.
use uchos.Prelude.{
  ℕ, ◌+◌, ◌≤◌, ◌≡◌, ◌⊎◌, inl, inr, refl, Bool, true, false, ◌||◌, not, Bool-cases, none, some, List,
  [], ◌∷◌, ◌==◌, if◌then◌else◌, arith, ℕ_discrete,
}
use uchos.Net.Arp.{ArpEntry, is_for, resolve, has_entry, update, fill_slot, add, remove}

abbrev pub has_room : List ArpEntry → Bool
has_room [] = false
has_room (e ∷ es) = not e.valid || has_room es

-- The valid entries of an address.
abbrev pub entries_for : List ArpEntry → ℕ → ℕ
entries_for [] ip = 0
entries_for (e ∷ es) ip = (if is_for e ip then 1 else 0) + entries_for es ip

-- No address has two entries.
abbrev pub Unique : List ArpEntry → Type 0
Unique entries = (ip : ℕ) → entries_for entries ip ≤ 1

resolve-update :
    (entries : List ArpEntry) (ip : ℕ) (mac : List ℕ) (q : ℕ)
    → has_entry entries ip ≡ true
    → (resolve (update entries ip mac) q ≡ (if q == ip then some mac else resolve entries q))
      × (entries_for (update entries ip mac) q ≡ entries_for entries q)
unfolding resolve update
resolve-update [] ip mac q h = absurd (ground (arith, h))
resolve-update (e ∷ es) ip mac q h = elim (Bool-cases (is_for e ip)) [
  | inl here ↦ rw here (ground (arith, here), ground (arith, here))
  | inr other ↦
      let (later, number) = resolve-update es ip mac q (ground (arith, h, other)) in
      rw other (ground (arith, other, later), ground (arith, number))
]

entries_for-none :
    (entries : List ArpEntry) (ip : ℕ) → has_entry entries ip ≡ false → entries_for entries ip ≡ 0
entries_for-none [] ip h = refl
entries_for-none (e ∷ es) ip h =
    let rest : has_entry es ip ≡ false = ground (arith, h) in
    ground (arith, h, entries_for-none es ip rest)

resolve-none :
    (entries : List ArpEntry) (ip : ℕ) → entries_for entries ip ≡ 0 → resolve entries ip ≡ none
unfolding resolve
resolve-none [] ip h = refl
resolve-none (e ∷ es) ip h =
    let rest : entries_for es ip ≡ 0 = omega (arith, h) in
    ground (arith, h, resolve-none es ip rest)

resolve-fill_slot :
    (entries : List ArpEntry) (ip : ℕ) (mac : List ℕ) (q : ℕ)
    → has_entry entries ip ≡ false
    → (resolve (fill_slot entries ip mac) q
        ≡ (if q == ip then (if has_room entries then some mac else none) else resolve entries q))
      × (entries_for (fill_slot entries ip mac) q
          ≡ (if q == ip then (if has_room entries then 1 else 0) else entries_for entries q))
unfolding resolve fill_slot
resolve-fill_slot [] ip mac q h = (ground arith, ground arith)
resolve-fill_slot (e ∷ es) ip mac q h =
    let rest : has_entry es ip ≡ false = ground (arith, h) in
    elim (Bool-cases e.valid) [
      | inl used ↦
          let other : (e.ip_addr == ip) ≡ false = ground (arith, h, used) in
          let (later, number) = resolve-fill_slot es ip mac q rest in
          rw used (ground (arith, used, other, later), ground (arith, used, other, number))
      | inr free ↦
          let none_later = entries_for-none es ip rest in
          elim (ℕ_discrete q ip) [
            | yes same ↦ rw (free, same) (ground arith, ground (arith, none_later))
            | no differs ↦ rw free (ground (arith, differs), ground (arith, differs))
          ]
    ]

resolve-remove :
    (entries : List ArpEntry) (ip q : ℕ)
    → entries_for entries ip ≤ 1
    → (resolve (remove entries ip) q ≡ (if q == ip then none else resolve entries q))
      × (entries_for (remove entries ip) q ≡ (if q == ip then 0 else entries_for entries q))
unfolding resolve remove
resolve-remove [] ip q one = (ground arith, ground arith)
resolve-remove (e ∷ es) ip q one = elim (Bool-cases (is_for e ip)) [
  | inl here ↦
      let none_later : entries_for es ip ≡ 0 = ground (arith, one, here) in
      let nothing = resolve-none es ip none_later in
      rw here (elim (ℕ_discrete q ip) [
        | yes same ↦ rw same (ground (arith, nothing), ground (arith, none_later))
        | no differs ↦ (ground (arith, here, differs), ground (arith, here, differs))
      ])
  | inr other ↦
      let (later, number) = resolve-remove es ip q (ground (arith, one, other)) in
      rw other (ground (arith, other, later), ground (arith, other, number))
]

resolve-add :
    (entries : List ArpEntry) (ip : ℕ) (mac : List ℕ) (q : ℕ)
    → (resolve (add entries ip mac) q ≡ (
        if q == ip
        then (if has_entry entries ip || has_room entries then some mac else none)
        else resolve entries q))
      × (entries_for (add entries ip mac) q ≤ (if q == ip then 1 else entries_for entries q)
          ⊎ (has_entry entries ip ≡ true)
            × (entries_for (add entries ip mac) q ≡ entries_for entries q))
unfolding add
resolve-add entries ip mac q = elim (Bool-cases (has_entry entries ip)) [
  | inl known ↦
      let (answer, number) = resolve-update entries ip mac q known in
      rw known (answer, inr (refl, number))
  | inr new ↦
      let (answer, number) = resolve-fill_slot entries ip mac q new in
      rw new (answer, inl (ground (arith, number)))
]

-- In a cache with no address twice, after adding and after removing an address there is none twice. After
-- `add` the address is answered by the new hardware address when it was there or a slot was empty, and else not at
-- all; after `remove` it is not answered; every other address is answered as before.
pub resolve_lem :
    (entries : List ArpEntry)
    → Unique entries
    → ((ip : ℕ) (mac : List ℕ)
        → Unique (add entries ip mac)
          × ((q : ℕ)
              → resolve (add entries ip mac) q ≡ (
                  if q == ip
                  then (if has_entry entries ip || has_room entries then some mac else none)
                  else resolve entries q)))
      × ((ip : ℕ)
          → Unique (remove entries ip)
            × ((q : ℕ)
                → resolve (remove entries ip) q ≡ (if q == ip then none else resolve entries q)))
resolve_lem entries unique = (
  λ ip mac. (
    λ q. elim (resolve-add entries ip mac q).1 [
      | inl few ↦ let old = unique q in ground (arith, few, old)
      | inr (known, same) ↦ let old = unique q in omega (arith, same, old)
    ],
    λ q. (resolve-add entries ip mac q).0,
  ),
  λ ip. (
    λ q.
        let number = (resolve-remove entries ip q (unique ip)).1 in
        let old = unique q in ground (arith, number, old),
    λ q. (resolve-remove entries ip q (unique ip)).0,
  ),
)
