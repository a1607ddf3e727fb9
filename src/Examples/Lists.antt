-- ===== src/Examples/Lists.antt =====
-- The intrusive list at a head with two nodes.
use uchos.Prelude.{ℕ, ◌<◌, ◌≡◌, ◌≢◌, refl, some, [], ◌∷◌, ◌==◌, if◌then◌else◌, arith}
use uchos.IntrusiveList.{
  Links, list_init, list_push_back, list_pop_front, list_contains, list_is_empty, list_size,
}
use uchos.IntrusiveList.Segment.{Fresh, member}
use uchos.IntrusiveList.Refine.{IsList, Pops, IsList-refines}

-- Nodes 20 and 30 behind the head 10.
abbrev two_nodes : Links
two_nodes = record {
  prev = λ i. if i == 10 then 30 else if i == 20 then 10 else 20;
  next = λ i. if i == 10 then 20 else if i == 20 then 30 else 10;
}

two_nodes-IsList : IsList two_nodes 10 (20 ∷ 30 ∷ [])
two_nodes-IsList = record {
  seg = (refl, refl, (refl, refl, (refl, refl)));
  fresh = (λ e. omega (arith, e), (λ e. omega (arith, e), tt));
  distinct = ((λ e. omega (arith, e), tt), (tt, tt));
}

IsList-refines_example :
    IsList (list_init two_nodes 10) 10 []
    × ((e : ℕ)
        → e ≢ 10
        → Fresh e (20 ∷ 30 ∷ [])
        → IsList (list_push_back two_nodes 10 e) 10 (20 ∷ 30 ∷ e ∷ []))
    × Pops two_nodes 10 (20 ∷ 30 ∷ []) (list_pop_front two_nodes 10)
    × ((fuel e : ℕ) → 2 < fuel → list_contains fuel two_nodes 10 e ≡ some (member (20 ∷ 30 ∷ []) e))
    × ((fuel : ℕ) → 2 < fuel → list_size fuel two_nodes 10 ≡ some 2)
    × (list_is_empty two_nodes 10 ≡ (2 == 0))
IsList-refines_example = IsList-refines two_nodes 10 (20 ∷ 30 ∷ []) two_nodes-IsList
