-- ===== src/IntrusiveList/Refine.antt =====
-- The linked nodes are a list, and every operation is the one on lists.
use uchos.Prelude.{
  ℕ, ◌<◌, ◌≡◌, ◌≢◌, refl, sym, ap, ◌∙◌, Option, none, some, List, [], ◌∷◌, ◌++◌, All-append, length,
  ◌==◌, ==_refl, ==_false, arith,
}
use uchos.IntrusiveList.{
  Links, write, list_init, list_push_back, list_pop_front, list_contains, list_is_empty, list_size,
}
use uchos.IntrusiveList.Segment.{
  Seg, Fresh, Distinct, member, last_from, prev-last, last_from-ne, Seg-frame, Seg-push,
  contains_from-Seg, size_from-Seg,
}

-- From the head `h` the nodes `xs`, all different, lead round to `h`.
pub record IsList (s : Links) (h : ℕ) (xs : List ℕ) : Type 0 where
  pub seg : Seg s h xs h
  pub fresh : Fresh h xs
  pub distinct : Distinct xs

list_init-IsList : (s : Links) (h : ℕ) → IsList (list_init s h) h []
unfolding list_init
list_init-IsList s h = record {
  seg = (rw (==_refl h) refl, rw (==_refl h) refl);
  fresh = tt;
  distinct = tt;
}

Distinct-append : (xs : List ℕ) (e : ℕ) → Fresh e xs → Distinct xs → Distinct (xs ++ e ∷ [])
Distinct-append [] e fresh distinct = (tt, tt)
Distinct-append (x ∷ xs) e fresh distinct = (
  All-append (λ y. y ≢ x) xs (e ∷ []) distinct.0 ((λ same. fresh.0 (sym same)), tt),
  Distinct-append xs e fresh.1 distinct.1,
)

list_push_back-IsList :
    (s : Links) (h e : ℕ) (xs : List ℕ)
    → IsList s h xs
    → e ≢ h
    → Fresh e xs
    → IsList (list_push_back s h e) h (xs ++ e ∷ [])
unfolding list_push_back
list_push_back-IsList s h e xs l eh fe =
    let he : h ≢ e = λ same. eh (sym same) in
    let end = prev-last s h xs h l.seg in
    let le = last_from-ne e h xs he fe in
    record {
      seg =
          Seg-push s (list_push_back s h e) h e h xs (rw (==_refl e) refl) (rw (==_refl h) refl)
            (rw (==_false (last_from h xs) e le, end, ==_refl (last_from h xs)) refl)
            (rw (==_false e h eh, ==_refl e) end)
            (λ i ie il. rw (==_false i e ie, end, ==_false i (last_from h xs) il) refl)
            (λ i ie ih. rw (==_false i h ih, ==_false i e ie) refl) he fe l.fresh l.fresh l.distinct
            l.seg;
      fresh = All-append (λ x. x ≢ h) xs (e ∷ []) l.fresh (eh, tt);
      distinct = Distinct-append xs e fe l.distinct;
    }

-- The front of a list, and what is left.
abbrev pub Pops : Links → ℕ → List ℕ → Links × Option ℕ → Type 0
Pops s h [] result = result ≡ (s, none)
Pops s h (x ∷ xs) result = (s' : Links) × (result ≡ (s', some x)) × IsList s' h xs

popped-Seg :
    (s : Links) (h x : ℕ) (xs : List ℕ)
    → x ≢ h
    → Fresh h xs
    → Distinct xs
    → Seg s x xs h
    → Seg (record { prev = write s.prev (s.next x) h; next = write s.next h (s.next x) }) h xs h
popped-Seg s h x [] xh fresh distinct seg = (rw (==_refl h) seg.0, rw (seg.0, ==_refl h) refl)
popped-Seg s h x (y ∷ ys) xh fresh distinct seg =
    let s' : Links = record {
      prev = write s.prev (s.next x) h;
      next = write s.next h (s.next x);
    } in
    (
      rw (==_refl h) seg.0,
      rw (seg.0, ==_refl y) refl,
      Seg-frame s s' h y y ys h (λ i ih. rw (==_false i h ih) refl)
          (λ i iy. rw (seg.0, ==_false i y iy) refl) fresh.0 fresh.1 distinct.0
          (λ same. fresh.0 (sym same)) seg.2,
    )

list_pop_front-Pops :
    (s : Links) (h : ℕ) (xs : List ℕ) → IsList s h xs → Pops s h xs (list_pop_front s h)
unfolding list_pop_front
list_pop_front-Pops s h [] l = rw (l.seg.0, ==_refl h) refl
list_pop_front-Pops s h (x ∷ xs) l = (
  record { prev = write s.prev (s.next x) h; next = write s.next h (s.next x) },
  rw (l.seg.0, ==_false x h l.fresh.0) refl,
  record {
    seg = popped-Seg s h x xs l.fresh.0 l.fresh.1 l.distinct.1 l.seg.2;
    fresh = l.fresh.1;
    distinct = l.distinct.1;
  },
)

list_is_empty-length :
    (s : Links) (h : ℕ) (xs : List ℕ) → IsList s h xs → list_is_empty s h ≡ (length xs == 0)
unfolding list_is_empty
list_is_empty-length s h [] l = rw (l.seg.0, ==_refl h) refl
list_is_empty-length s h (x ∷ xs) l = rw (l.seg.0, ==_false x h l.fresh.0) (ground arith)

-- A head that has been initialised is the empty list. When a head `h` has the nodes `xs`: pushing a node that
-- is neither `h` nor among them puts it behind them; popping gives null and changes nothing when there is none, and
-- else takes the first one off; with more rounds than nodes `list_contains` and `list_size` end, with the membership and
-- the number of the nodes; and `list_is_empty` says whether there is none.
pub IsList-refines :
    (s : Links) (h : ℕ) (xs : List ℕ)
    → IsList s h xs
    → IsList (list_init s h) h []
      × ((e : ℕ) → e ≢ h → Fresh e xs → IsList (list_push_back s h e) h (xs ++ e ∷ []))
      × Pops s h xs (list_pop_front s h)
      × ((fuel e : ℕ) → length xs < fuel → list_contains fuel s h e ≡ some (member xs e))
      × ((fuel : ℕ) → length xs < fuel → list_size fuel s h ≡ some (length xs))
      × (list_is_empty s h ≡ (length xs == 0))
unfolding list_contains list_size
IsList-refines s h xs l = (
  list_init-IsList s h,
  λ e eh fe. list_push_back-IsList s h e xs l eh fe,
  list_pop_front-Pops s h xs l,
  λ fuel e enough. contains_from-Seg fuel s h e h xs enough l.fresh l.seg,
  λ fuel enough. size_from-Seg fuel s h h xs 0 enough l.fresh l.seg ∙ ap some (omega arith),
  list_is_empty-length s h xs l,
)
