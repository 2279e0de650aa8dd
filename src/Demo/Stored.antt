-- ===== src/Demo/Stored.antt =====
-- What the upsert of one entry of the demo leaves in the tables.
use mathlib.Core.List.{append-nil}
use sentinel_project.Base.{
  Any, List, Option, String, [], arith, filter, filter-append, find, if◌then◌else◌, nat_eq, none,
  not, refl, some, string_eq, subst, sym, true, ℕ, ◌++◌, ◌==◌, ◌∙◌, ◌∷◌, ◌≡◌,
}
use sentinel_project.Base.Text.{Platform}
use sentinel_project.Db.{Monitor, Prisma, Tables}
use sentinel_project.Demo.{DemoEntry, demo_row, demo_values, upsert_monitor}
use sentinel_project.Demo.Found.{
  Any-found, Any-kept, Any-last, IsKeyed, found_key-OwnedAt, has_key-IsKeyed,
}
use sentinel_project.Monitors.{owned_by}
use sentinel_project.Monitors.Consistent.{Any-end, distinct_end, distinct_update}
use sentinel_project.Monitors.Owner.{DistinctIds, filter-update_where}
use sentinel_project.Seed.{has_key}

-- What the upsert of one entry does.
pub record IsStored (owner : ℕ) (key : String) (t t' : Tables) : Type 0 where
  pub distinct : DistinctIds t'.monitors
  pub others :
      filter (λ m. not (owned_by owner m)) t'.monitors
      ≡ filter (λ m. not (owned_by owner m)) t.monitors
  pub stored : Any (IsKeyed owner key) t'.monitors
  pub kept : (k : String) → Any (IsKeyed owner k) t.monitors → Any (IsKeyed owner k) t'.monitors
  pub users : t'.users ≡ t.users

others_end :
    (e : DemoEntry) (owner now i : ℕ) (ms : List Monitor)
    → filter (λ m. not (owned_by owner m)) (ms ++ demo_row e owner now i ∷ [])
      ≡ filter (λ m. not (owned_by owner m)) ms
others_end e owner now i ms =
    let own : (owner == owner) ≡ true = ground arith in
    filter-append (λ m. not (owned_by owner m)) ms (demo_row e owner now i ∷ [])
    ∙ rw (own, not, if◌then◌else◌) (append-nil (filter (λ m. not (owned_by owner m)) ms))

module _ (p : Platform) (c : Prisma) where
  open c use {Db, tables}

  pub upsert-IsStored :
      (o : Option Monitor) (e : DemoEntry) (owner now : ℕ) (db : Db)
      → DistinctIds (tables db).monitors
      → find (has_key owner e.seed_key) (tables db).monitors ≡ o
      → IsStored owner e.seed_key (tables db) (tables (upsert_monitor p c o e owner now db))
  upsert-IsStored none e owner now db d h =
      let (i, made, fresh, stored) = c.create_lem (demo_row e owner now) db in
      let ms = (tables db).monitors in
      subst (IsStored owner e.seed_key (tables db)) (sym stored) record {
        distinct = distinct_end ms (demo_row e owner now i) d fresh;
        others = others_end e owner now i ms;
        stored = Any-last (IsKeyed owner e.seed_key) ms (demo_row e owner now i) (refl, refl);
        kept = λ k. Any-end (IsKeyed owner k) ms (demo_row e owner now i);
        users = refl;
      }
  upsert-IsStored (some m) e owner now db d h =
      let ms = (tables db).monitors in
      let here = λ (x : Monitor). x.id == m.id in
      subst (IsStored owner e.seed_key (tables db)) (sym (c.update_lem m.id (demo_values e) db).1)
        record {
          distinct = distinct_update here (demo_values e) (λ x. refl) ms d;
          others =
              filter-update_where m.id owner (demo_values e) ms (λ x. refl)
                (found_key-OwnedAt owner e.seed_key ms m d h);
          stored =
              Any-kept (IsKeyed owner e.seed_key) here (demo_values e) ms (λ x k. k)
                (Any-found (IsKeyed owner e.seed_key) (has_key owner e.seed_key) ms m
                  (has_key-IsKeyed owner e.seed_key) h);
          kept = λ k. Any-kept (IsKeyed owner k) here (demo_values e) ms (λ x q. q);
          users = refl;
        }
