-- ===== src/Seed/Publication.antt =====
-- Which monitors are public after the seed. A public monitor is one that the manifest names, of
-- some owner.
use sentinel_project.Base.{
  All, All-both, All-map, Any, Bool, Bool-cases, List, Option, String, [], ap, arith, eq_iff, false,
  find, find-Any, find-none, find-some, get_or, if◌then◌else◌, inl, inr, map, nat_eq, none, not,
  refl, some, string_eq, sym, true, ℕ, ◌++◌, ◌==◌, ◌∙◌, ◌∷◌, ◌≡◌, ◌≢◌, ◌⊎◌,
}
use sentinel_project.Base.Result.{Exception, Result, bad_request, ok, throw}
use sentinel_project.Base.Text.{Platform}
use sentinel_project.Db.{Monitor, Prisma, Tables, User, update_where}
use sentinel_project.Seed.{
  SeedEntry, has_key, hide, hide_all, in_keys, is_email, is_withdrawn, owner_row, publish,
  same_email, seed, seed_checked, seed_for, seeded, seeded_row, store_entry, taken_over, upsert_all,
  with_owner,
}

abbrev pub IsNamed : List SeedEntry → ℕ → Monitor → Type 0
IsNamed es owner m =
    (m.is_public ≡ false)
    ⊎ ((m.user_id ≡ owner) × (in_keys (map (λ e. e.seed_key) es) m.seed_key ≡ true))

kept-IsNamed :
    (es : List SeedEntry) (owner : ℕ) (m : Monitor)
    → is_withdrawn owner es m ≡ false
    → IsNamed es owner m
unfolding is_withdrawn
kept-IsNamed es owner m h = elim (Bool-cases m.is_public) [
  | inl e ↦ inr (ground arith, ground arith)
  | inr e ↦ inl e
]

withdrawn-IsNamed :
    (es : List SeedEntry) (owner : ℕ) (ms : List Monitor)
    → All (IsNamed es owner) (update_where (is_withdrawn owner es) hide ms)
withdrawn-IsNamed es owner [] = tt
withdrawn-IsNamed es owner (m ∷ ms) = elim (Bool-cases (is_withdrawn owner es m)) [
  | inl e ↦ (rw (e, if◌then◌else◌) (inl refl), withdrawn-IsNamed es owner ms)
  | inr e ↦ (rw (e, if◌then◌else◌) (kept-IsNamed es owner m e), withdrawn-IsNamed es owner ms)
]

hidden : (b : Bool) (m : Monitor) → m.is_public ≡ b → (if b then hide m else m).is_public ≡ false
hidden true m e = refl
hidden false m e = e

hidden-All :
    (ms : List Monitor) → All (λ m. m.is_public ≡ false) (update_where (λ m. m.is_public) hide ms)
hidden-All [] = tt
hidden-All (m ∷ ms) = (hidden m.is_public m refl, hidden-All ms)

Any-last : {A : Type 0} (x : A) (xs : List A) → Any (λ y. y ≡ x) (xs ++ x ∷ [])
Any-last x [] = inl refl
Any-last x (y ∷ ys) = inr (Any-last x ys)

module _ (p : Platform) (c : Prisma) where
  open c use {Db, tables, create_lem, update_lem, update_many_lem, user_create_lem, user_find_lem}

  -- An owner of the seed's monitors, stored with no login: no demo user, not active, and with the
  -- seed's placeholder for a password hash; a row that was there before the seed as it is, or a new
  -- one where no user had the address.
  pub record IsOwner (email : String) (before after : Db) (owner : User) : Type 0 where
    pub address : owner.email ≡ email
    pub no_demo : owner.is_demo ≡ false
    pub inactive : owner.is_active ≡ false
    pub disabled : owner.password ≡ "STATUS_SEED_DISABLED_PASSWORD_SENTINEL"
    pub stored : Any (λ u. u ≡ owner) (tables after).users
    pub origin :
        Any (λ u. u ≡ owner) (tables before).users
        ⊎ All (λ u. (u.id ≢ owner.id) × (u.email ≢ email)) (tables before).users

  -- What holds after a seed that succeeded, for the configured address.
  pub data IsPublished (email : String) (es : List SeedEntry) (before after : Db) : Type 0 where
    withdrawn :
        email ≡ ""
        → All (λ m. m.is_public ≡ false) (tables after).monitors
        → IsPublished email es before after
    published :
        (owner : User)
        → IsOwner email before after owner
        → All (IsNamed es owner.id) (tables after).monitors
        → IsPublished email es before after

  upsert_all-users :
      (es : List SeedEntry) (owner now : ℕ) (db : Db)
      → (tables (upsert_all p c es owner now db)).users ≡ (tables db).users
  unfolding upsert_all
  upsert_all-users [] owner now db = refl
  upsert_all-users (e ∷ es) owner now db =
      upsert_all-users es owner now _ ∙ step (c.monitor_find_first (has_key owner e.seed_key) db)
    where
      step :
          (o : Option Monitor)
          → (tables (store_entry p c o e owner now db)).users ≡ (tables db).users
      step none =
          let (i, made, fresh, stored) = create_lem (seeded_row e owner now) db in
          ap (λ (t : Tables). t.users) stored
      step (some m) = ap (λ (t : Tables). t.users) (update_lem m.id (seeded e) db).1

  publish-users :
      (es : List SeedEntry) (owner now : ℕ) (db : Db)
      → (tables (publish p c es owner now db).1).users ≡ (tables db).users
  unfolding publish
  publish-users es owner now db =
      let before = upsert_all p c es owner now db in
      ap (λ (t : Tables). t.users) (update_many_lem (is_withdrawn owner es) hide before).1
      ∙ upsert_all-users es owner now db

  made-IsOwner :
      (email : String) (es : List SeedEntry) (now : ℕ) (db : Db)
      → find (λ u. u.email == email) (tables db).users ≡ none
      → (let (u, db') = c.user_create (owner_row email now) db in
          IsOwner email db (publish p c es u.id now db').1 u)
  made-IsOwner email es now db e =
      let (i, made, fresh, stored) = user_create_lem (owner_row email now) db in
      let (u, db') = c.user_create (owner_row email now) db in
      let same : u.id ≡ i = ap (λ (u : User). u.id) made in
      let free = find-none (λ u. u.email == email) (tables db).users e in
      record {
        address = ap (λ (u : User). u.email) made;
        no_demo = ap (λ (u : User). u.is_demo) made;
        inactive = ap (λ (u : User). u.is_active) made;
        disabled = ap (λ (u : User). u.password) made;
        stored =
            rw (publish-users es u.id now db', stored, made)
              (Any-last (owner_row email now i) (tables db).users);
        origin = inr (
            All-map
              (λ (x : User) h.
                ((λ q. h.0 (q ∙ same)), (λ q. ground (arith, h.1, (eq_iff x.email email).1 q))))
              (tables db).users
              (All-both (λ x. x.id ≢ i) (λ x. (x.email == email) ≡ false) (tables db).users fresh
                free));
      }

  kept-IsOwner :
      (email : String) (es : List SeedEntry) (now : ℕ) (db : Db) (u : User)
      → find (λ u. u.email == email) (tables db).users ≡ some u
      → taken_over u ≡ false
      → IsOwner email db (publish p c es u.id now db).1 u
  kept-IsOwner email es now db u e k =
      let there = find-Any (λ u. u.email == email) (tables db).users u e in
      record {
        address =
            (eq_iff u.email email).0 (find-some (λ u. u.email == email) (tables db).users u e);
        no_demo = ground arith;
        inactive = ground arith;
        disabled = ground (arith, eq_iff u.password "STATUS_SEED_DISABLED_PASSWORD_SENTINEL");
        stored = rw (publish-users es u.id now db) there;
        origin = inl there;
      }

  publish-IsNamed :
      (es : List SeedEntry) (owner now : ℕ) (db : Db)
      → All (IsNamed es owner) (tables (publish p c es owner now db).1).monitors
  unfolding publish
  publish-IsNamed es owner now db =
      let before = upsert_all p c es owner now db in
      let (count, stored) = update_many_lem (is_withdrawn owner es) hide before in
      rw stored (withdrawn-IsNamed es owner (tables before).monitors)

  hide_all-All : (db : Db) → All (λ m. m.is_public ≡ false) (tables (hide_all p c db).1).monitors
  unfolding hide_all
  hide_all-All db =
      let (count, stored) = update_many_lem (λ m. m.is_public) hide db in
      rw stored (hidden-All (tables db).monitors)

  with_owner-IsPublished :
      (o : Option User) (email : String) (es : List SeedEntry) (now : ℕ) (db : Db) (n : ℕ)
      → find (λ u. u.email == email) (tables db).users ≡ o
      → (with_owner p c o email es now db).0 ≡ ok n
      → IsPublished email es db (with_owner p c o email es now db).1
  unfolding with_owner
  with_owner-IsPublished none email es now db n e h =
      let (owner, db') = c.user_create (owner_row email now) db in
      published owner (made-IsOwner email es now db e) (publish-IsNamed es owner.id now db')
  with_owner-IsPublished (some u) email es now db n e h = elim (Bool-cases (taken_over u)) [
    | inl k ↦ absurd (ground (arith, rw (k, if◌then◌else◌) at h))
    | inr k ↦
        rw (k, if◌then◌else◌)
          (published u (kept-IsOwner email es now db u e k) (publish-IsNamed es u.id now db))
  ]

  -- The tests of `seed_for`, of which the first and the last branch may succeed.
  pick :
      (blank bad same : Bool) (x y : Exception) (db : Db) (a b : Result ℕ × Db) (n : ℕ)
      (email : String) (es : List SeedEntry)
      → (blank ≡ true → IsPublished email es db a.1)
      → (b.0 ≡ ok n → IsPublished email es db b.1)
      → (if blank then a else if bad then (throw x, db) else if same then (throw y, db) else b).0
        ≡ ok n
      → IsPublished email es db
          (if blank then a else if bad then (throw x, db) else if same then (throw y, db) else b).1
  pick true bad same x y db a b n email es f g h = f refl
  pick false true same x y db a b n email es f g h = cc
  pick false false true x y db a b n email es f g h = cc
  pick false false false x y db a b n email es f g h = g h

  seed_for-IsPublished :
      (env : String → Option String) (email : String) (es : List SeedEntry) (now : ℕ) (db : Db)
      (n : ℕ)
      → (seed_for p c env email es now db).0 ≡ ok n
      → IsPublished email es db (seed_for p c env email es now db).1
  unfolding seed_for
  seed_for-IsPublished env email es now db n h =
      let o = c.user_find_first (λ u. u.email == email) db in
      pick (email == "") (not (is_email email)) (same_email p c email (env "DEMO_USER_EMAIL"))
        (bad_request "STATUS_OWNER_EMAIL must be a valid email address")
        (bad_request "STATUS_OWNER_EMAIL must be different from DEMO_USER_EMAIL") db
        (hide_all p c db) (with_owner p c o email es now db) n email es
        (λ k. withdrawn ((eq_iff email "").0 k) (hide_all-All db))
        (with_owner-IsPublished o email es now db n (sym (user_find_lem _ db))) h

  seed_checked-IsPublished :
      (r : Result (Unit {0})) (env : String → Option String) (es : List SeedEntry) (now : ℕ)
      (db : Db) (n : ℕ)
      → (seed_checked p c r env es now db).0 ≡ ok n
      → IsPublished
          (get_or (env "STATUS_OWNER_EMAIL") "")
          es
          db
          (seed_checked p c r env es now db).1
  seed_checked-IsPublished (throw x) env es now db n h = cc
  seed_checked-IsPublished (ok u) env es now db n h = seed_for-IsPublished env _ es now db n h

  -- After a seed that succeeded, either no owner's address is configured and no monitor is public;
  -- or a stored user with that address owns every public monitor, each of which the manifest names,
  -- and this user is no demo user, is not active and has the seed's placeholder for a password
  -- hash: one that was stored before as it is, or a new one where no user had the address.
  pub seed-IsPublished :
      (env : String → Option String) (es : List SeedEntry) (now : ℕ) (db : Db) (n : ℕ)
      → (seed p c env es now db).0 ≡ ok n
      → IsPublished (get_or (env "STATUS_OWNER_EMAIL") "") es db (seed p c env es now db).1
  unfolding seed
  seed-IsPublished env es now db n h = seed_checked-IsPublished _ env es now db n h
