-- ===== src/Chart/Ordered.antt =====
-- The chart's rows are in the order of their times.
use sentinel_project.Base.{
  All, Bool, List, Option, Option-cases, Sorted, [], arith, false, inl, inr, leb, ltb, nat_eq, none,
  refl, some, sort-Sorted, string_eq, sym, true, ℕ, ◌&&◌, ◌==◌, ◌||◌, ◌∙◌, ◌∷◌, ◌≡◌,
}
use sentinel_project.Base.Text.{Platform}
use sentinel_project.Chart.Points.{Item, comes_first, items_from, ordered, times}
use sentinel_project.History.Summary.{MonitorHistoryRow}

comes_first_total : (a b : Item) → comes_first a b ≡ false → comes_first b a ≡ true
comes_first_total a b h = elim (Option-cases a.timestamp) [
  | inl e ↦ elim (Option-cases b.timestamp) [
    | inl f ↦ rw (e, f) (let g = rw (e, f) at h in ground (arith, g))
    | inr (t, f) ↦ rw (e, f) refl
  ]
  | inr (s, e) ↦ elim (Option-cases b.timestamp) [
    | inl f ↦ absurd (let g = rw (e, f) at h in cc)
    | inr (t, f) ↦ rw (e, f) (let g = rw (e, f) at h in ground (arith, g))
  ]
]

-- The comparison on what it reads of an item: its time, its row's identifier and its index.
key_le : Option ℕ → ℕ → ℕ → Option ℕ → ℕ → ℕ → Bool
key_le none i n none j m = leb n m
key_le none i n (some t) j m = false
key_le (some s) i n none j m = true
key_le (some s) i n (some t) j m = ltb s t || s == t && leb i j

key :
    (a b : Item)
    → comes_first a b ≡ key_le a.timestamp a.row.id a.index b.timestamp b.row.id b.index
unfolding key_le
key a b = elim (Option-cases a.timestamp) [
  | inl e ↦ elim (Option-cases b.timestamp) [ inl f ↦ rw (e, f) refl | inr (t, f) ↦ rw (e, f) refl ]
  | inr (s, e) ↦ elim (Option-cases b.timestamp) [
    | inl f ↦ rw (e, f) refl
    | inr (t, f) ↦ rw (e, f) refl
  ]
]

key_trans :
    (o : Option ℕ) (i n : ℕ) (o' : Option ℕ) (j m : ℕ) (o'' : Option ℕ) (k l : ℕ)
    → key_le o i n o' j m ≡ true
    → key_le o' j m o'' k l ≡ true
    → key_le o i n o'' k l ≡ true
unfolding key_le
key_trans none i n none j m none k l g h = ground arith
key_trans none i n none j m (some u) k l g h = cc
key_trans none i n (some t) j m o'' k l g h = cc
key_trans (some s) i n none j m none k l g h = refl
key_trans (some s) i n none j m (some u) k l g h = cc
key_trans (some s) i n (some t) j m none k l g h = refl
key_trans (some s) i n (some t) j m (some u) k l g h = ground arith

comes_first_trans :
    (a b c : Item) → comes_first a b ≡ true → comes_first b c ≡ true → comes_first a c ≡ true
comes_first_trans a b c g h =
    key a c
    ∙ key_trans _ _ _ b.timestamp b.row.id b.index _ _ _ (sym (key a b) ∙ g) (sym (key b c) ∙ h)

pub ordered-Sorted :
    (p : Platform) (rows : List MonitorHistoryRow) → Sorted comes_first (ordered p rows)
unfolding ordered
ordered-Sorted p rows =
    sort-Sorted comes_first comes_first_total comes_first_trans (items_from p 0 rows)

-- What is not before `a` has no earlier time.
times_after :
    (s : ℕ) (a : Item) (items : List Item)
    → a.timestamp ≡ some s
    → All (λ b. comes_first a b ≡ true) items
    → All (λ t. leb s t ≡ true) (times items)
times_after s a [] e h = tt
times_after s a (b ∷ items) e h = elim (Option-cases b.timestamp) [
  | inl f ↦ rw f (times_after s a items e h.1)
  | inr (t, f) ↦ let g = rw (e, f) at h.0 in rw f (ground (arith, g), times_after s a items e h.1)
]

pub times-Sorted : (items : List Item) → Sorted comes_first items → Sorted leb (times items)
times-Sorted [] h = tt
times-Sorted (a ∷ items) h = elim (Option-cases a.timestamp) [
  | inl e ↦ rw e (times-Sorted items h.1)
  | inr (s, e) ↦ rw e (times_after s a items e h.0, times-Sorted items h.1)
]
