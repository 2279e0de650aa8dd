-- ===== src/Db/Memory.antt =====
-- A Prisma client over lists in memory: the laws of the interface can be met.
use mathlib.Core.List.{Perm}
use mathlib.Core.List.Perm
use mathlib.Core.Option
use sentinel_project.Base.{
  All, Bool, Bool-cases, List, [], ap, arith, filter, find, if◌then◌else◌, inl, inr, length,
  length-take, ltb, ltb→lt, map, max, min, nat_eq, refl, string_eq, suc, take, true, zero, ℕ, ◌++◌,
  ◌==◌, ◌∙◌, ◌∷◌, ◌≡◌, ◌≢◌, ◌≤◌,
}
use sentinel_project.Db.{
  Descending, IsPage, Monitor, Prisma, Tables, User, delete_where, update_where, with_monitors,
}

module _ {ℓ} {A : Type ℓ} (at : A → ℕ) where
  insert_newest : A → List A → List A
  insert_newest a [] = a ∷ []
  insert_newest a (x ∷ xs) =
      let rest = x ∷ insert_newest a xs in if ltb (at a) (at x) then rest else a ∷ x ∷ xs

  sort_newest : List A → List A
  sort_newest [] = []
  sort_newest (x ∷ xs) = insert_newest x (sort_newest xs)

  drop : ℕ → List A → List A
  drop zero xs = xs
  drop (suc n) [] = []
  drop (suc n) (x ∷ xs) = drop n xs

  take-append-drop : (n : ℕ) (xs : List A) → take n xs ++ drop n xs ≡ xs
  unfolding drop
  take-append-drop zero xs = refl
  take-append-drop (suc n) [] = refl
  take-append-drop (suc n) (x ∷ xs) = rw (take-append-drop n xs)

  insert_newest-perm : (a : A) (xs : List A) → Perm (insert_newest a xs) (a ∷ xs)
  unfolding insert_newest
  insert_newest-perm a [] = Perm.refl (a ∷ [])
  insert_newest-perm a (x ∷ xs) = elim (Bool-cases (ltb (at a) (at x))) [
    | inl e ↦ rw e (Perm.trans (Perm.cons x (insert_newest-perm a xs)) (Perm.swap a x xs))
    | inr e ↦ rw e (Perm.refl (a ∷ x ∷ xs))
  ]

  sort_newest-perm : (xs : List A) → Perm (sort_newest xs) xs
  unfolding sort_newest
  sort_newest-perm [] = Perm.refl []
  sort_newest-perm (x ∷ xs) =
      Perm.trans (insert_newest-perm x (sort_newest xs)) (Perm.cons x (sort_newest-perm xs))

  -- Sorted by `at`, the greatest first.
  abbrev Newest : List A → Type 0
  Newest [] = Unit
  Newest (x ∷ xs) = All (λ y. at y ≤ at x) xs × Newest xs

  All-le : (m n : ℕ) (xs : List A) → m ≤ n → All (λ y. at y ≤ m) xs → All (λ y. at y ≤ n) xs
  All-le m n [] h k = tt
  All-le m n (x ∷ xs) h k = (omega (arith, k.0), All-le m n xs h k.1)

  insert_newest-All :
      (n : ℕ) (a : A) (xs : List A)
      → at a ≤ n
      → All (λ y. at y ≤ n) xs
      → All (λ y. at y ≤ n) (insert_newest a xs)
  unfolding insert_newest
  insert_newest-All n a [] h k = (h, tt)
  insert_newest-All n a (x ∷ xs) h k = elim (Bool-cases (ltb (at a) (at x))) [
    | inl e ↦ rw e (k.0, insert_newest-All n a xs h k.1)
    | inr e ↦ rw e (h, k)
  ]

  insert_newest-Newest : (a : A) (xs : List A) → Newest xs → Newest (insert_newest a xs)
  unfolding insert_newest
  insert_newest-Newest a [] h = (tt, tt)
  insert_newest-Newest a (x ∷ xs) h = elim (Bool-cases (ltb (at a) (at x))) [
    | inl e ↦
        let l = ltb→lt (at a) (at x) e in
        rw e (insert_newest-All (at x) a xs (omega arith) h.0, insert_newest-Newest a xs h.1)
    | inr e ↦ let l : at x ≤ at a = ground arith in rw e ((l, All-le (at x) (at a) xs l h.0), h)
  ]

  sort_newest-Newest : (xs : List A) → Newest (sort_newest xs)
  unfolding sort_newest
  sort_newest-Newest [] = tt
  sort_newest-Newest (x ∷ xs) = insert_newest-Newest x (sort_newest xs) (sort_newest-Newest xs)

  length-insert_newest : (a : A) (xs : List A) → length (insert_newest a xs) ≡ suc (length xs)
  unfolding insert_newest
  length-insert_newest a [] = refl
  length-insert_newest a (x ∷ xs) = ground (arith, length-insert_newest a xs)

  length-sort_newest : (xs : List A) → length (sort_newest xs) ≡ length xs
  unfolding sort_newest
  length-sort_newest [] = refl
  length-sort_newest (x ∷ xs) =
      omega (arith, length-insert_newest x (sort_newest xs), length-sort_newest xs)

  All-take :
      (m : ℕ) (n : ℕ) (xs : List A) → All (λ y. at y ≤ m) xs → All (λ y. y ≤ m) (map at (take n xs))
  All-take m zero xs h = tt
  All-take m (suc n) [] h = tt
  All-take m (suc n) (x ∷ xs) h = (h.0, All-take m n xs h.1)

  All-drop :
      (m : ℕ) (n : ℕ) (xs : List A) → All (λ y. at y ≤ m) xs → All (λ y. at y ≤ m) (drop n xs)
  unfolding drop
  All-drop m zero xs h = h
  All-drop m (suc n) [] h = tt
  All-drop m (suc n) (x ∷ xs) h = All-drop m n xs h.1

  take-Descending : (n : ℕ) (xs : List A) → Newest xs → Descending (map at (take n xs))
  take-Descending zero xs h = tt
  take-Descending (suc n) [] h = tt
  take-Descending (suc n) (x ∷ xs) h = (All-take (at x) n xs h.0, take-Descending n xs h.1)

  take_bounds :
      (n : ℕ) (xs : List A) → Newest xs → All (λ x. All (λ y. at y ≤ at x) (drop n xs)) (take n xs)
  unfolding drop
  take_bounds zero xs h = tt
  take_bounds (suc n) [] h = tt
  take_bounds (suc n) (x ∷ xs) h = (All-drop (at x) n xs h.0, take_bounds n xs h.1)

  filter-chosen : (p : A → Bool) (xs : List A) → All (λ x. p x ≡ true) (filter p xs)
  filter-chosen p [] = tt
  filter-chosen p (x ∷ xs) = elim (Bool-cases (p x)) [
    | inl e ↦ rw (e, if◌then◌else◌) (e, filter-chosen p xs)
    | inr e ↦ rw (e, if◌then◌else◌) (filter-chosen p xs)
  ]

  module _ (P : A → Type 0) where
    insert_newest-keeps : (a : A) (xs : List A) → P a → All P xs → All P (insert_newest a xs)
    unfolding insert_newest
    insert_newest-keeps a [] h k = (h, tt)
    insert_newest-keeps a (x ∷ xs) h k = elim (Bool-cases (ltb (at a) (at x))) [
      | inl e ↦ rw e (k.0, insert_newest-keeps a xs h k.1)
      | inr e ↦ rw e (h, k)
    ]

    sort_newest-keeps : (xs : List A) → All P xs → All P (sort_newest xs)
    unfolding sort_newest
    sort_newest-keeps [] h = tt
    sort_newest-keeps (x ∷ xs) h =
        insert_newest-keeps x (sort_newest xs) h.0 (sort_newest-keeps xs h.1)

    take-keeps : (n : ℕ) (xs : List A) → All P xs → All P (take n xs)
    take-keeps zero xs h = tt
    take-keeps (suc n) [] h = tt
    take-keeps (suc n) (x ∷ xs) h = (h.0, take-keeps n xs h.1)

  unfoldable pub page : (A → Bool) → ℕ → List A → List A
  unfolding sort_newest insert_newest
  page p n rows = take n (sort_newest (filter p rows))

  pub page-IsPage : (p : A → Bool) (n : ℕ) (rows : List A) → IsPage at p n rows (page p n rows)
  unfolding page
  page-IsPage p n rows =
      let sorted = sort_newest (filter p rows) in
      let newest = sort_newest-Newest (filter p rows) in
      record {
        omitted = drop n sorted;
        chosen =
            take-keeps (λ x. p x ≡ true) n sorted
              (sort_newest-keeps (λ x. p x ≡ true) (filter p rows) (filter-chosen p rows));
        perm = rw (take-append-drop n sorted) (sort_newest-perm (filter p rows));
        newest = take-Descending n sorted newest;
        size = length-take n sorted ∙ ap (min n) (length-sort_newest (filter p rows));
        bounds = take_bounds n sorted newest;
      }

-- A number above all the ids.
unfoldable pub above {ℓ} : {A : Type ℓ} → (A → ℕ) → List A → ℕ
above id [] = 1
above id (x ∷ xs) = max (suc (id x)) (above id xs)

above-ne {ℓ} :
    {A : Type ℓ} (id : A → ℕ) (n : ℕ) (xs : List A) → above id xs ≤ n → All (λ x. id x ≢ n) xs
unfolding above
above-ne id n [] h = tt
above-ne id n (x ∷ xs) h = (λ e. omega arith, above-ne id n xs (omega arith))

abbrev fresh_monitor : Tables → ℕ
fresh_monitor t = above (λ (m : Monitor). m.id) t.monitors

abbrev fresh_user : Tables → ℕ
fresh_user t = above (λ (u : User). u.id) t.users

pub fresh_monitor-ne : (t : Tables) → All (λ (m : Monitor). m.id ≢ fresh_monitor t) t.monitors
fresh_monitor-ne t = above-ne (λ (m : Monitor). m.id) (fresh_monitor t) t.monitors (omega arith)

pub fresh_user-ne : (t : Tables) → All (λ (u : User). u.id ≢ fresh_user t) t.users
fresh_user-ne t = above-ne (λ (u : User). u.id) (fresh_user t) t.users (omega arith)

abbrev pub memory : Prisma
memory = record {
  Db = Tables;
  tables = λ t. t;
  monitor_count = λ p t. length (filter p t.monitors);
  monitor_find_many = λ p t. filter p t.monitors;
  monitor_find_first = λ p t. find p t.monitors;
  monitor_create =
      λ row t. (row (fresh_monitor t), with_monitors t (t.monitors ++ row (fresh_monitor t) ∷ []));
  monitor_update = λ i f t. (
    Option.map f (find (λ m. m.id == i) t.monitors),
    with_monitors t (update_where (λ m. m.id == i) f t.monitors),
  );
  monitor_update_many =
      λ p f t. (length (filter p t.monitors), with_monitors t (update_where p f t.monitors));
  monitor_delete = λ i t. with_monitors t (delete_where (λ m. m.id == i) t.monitors);
  results_delete_many = λ p t. record t { results = delete_where p t.results };
  alerts_delete_many = λ p t. record t { alerts = delete_where p t.alerts };
  results_page = λ p n t. page (λ r. r.created_at) p n t.results;
  alerts_page = λ p n t. page (λ a. a.created_at) p n t.alerts;
  user_find_first = λ p t. find p t.users;
  user_create =
      λ row t. (row (fresh_user t), record t { users = t.users ++ row (fresh_user t) ∷ [] });
  user_update = λ i f t. record t { users = update_where (λ u. u.id == i) f t.users };
  count_lem = λ p t. refl;
  find_many_lem = λ p t. refl;
  find_first_lem = λ p t. refl;
  create_lem = λ row t. (fresh_monitor t, refl, fresh_monitor-ne t, refl);
  update_lem = λ i f t. (refl, refl);
  update_many_lem = λ p f t. (refl, refl);
  delete_lem = λ i t. refl;
  results_delete_lem = λ p t. refl;
  alerts_delete_lem = λ p t. refl;
  results_page_lem = λ p n t. page-IsPage (λ r. r.created_at) p n t.results;
  alerts_page_lem = λ p n t. page-IsPage (λ a. a.created_at) p n t.alerts;
  user_find_lem = λ p t. refl;
  user_update_lem = λ i f t. refl;
  user_create_lem = λ row t. (fresh_user t, refl, fresh_user-ne t, refl);
}
