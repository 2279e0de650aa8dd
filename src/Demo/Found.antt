-- ===== src/Demo/Found.antt =====
-- Rows of the demo that are found by a test, and what an update and a creation leave of them.
use sentinel_project.Base.{
  All, All-map, Any, Bool, Bool-cases, List, Option, String, [], ap, arith, beq→eq, eq_iff, false,
  find, if◌then◌else◌, inl, inr, nat_eq, none, opt_eq, refl, some, string_eq, subst, sym, true, ℕ,
  ◌&&◌, ◌++◌, ◌==◌, ◌∙◌, ◌∷◌, ◌≡◌, ◌≢◌,
}
use sentinel_project.Db.{Monitor, User, update_where}
use sentinel_project.Monitors.Owner.{DistinctIds, OwnedAt}
use sentinel_project.Seed.{has_key}

-- The monitor of the owner with the key.
abbrev pub IsKeyed : ℕ → String → Monitor → Type 0
IsKeyed owner key m = (m.user_id ≡ owner) × (m.seed_key ≡ some key)

pub keyed_of : (o : Option String) (key : String) → opt_eq o (some key) ≡ true → o ≡ some key
keyed_of none key h = absurd (ground (arith, h))
keyed_of (some k) key h = ap some ((eq_iff k key).0 h)

pub both_true : (a b : Bool) → (a && b) ≡ true → (a ≡ true) × (b ≡ true)
both_true true true h = (refl, refl)
both_true true false h = absurd (cc)
both_true false b h = absurd (cc)

pub has_key-IsKeyed :
    (owner : ℕ) (key : String) (m : Monitor) → has_key owner key m ≡ true → IsKeyed owner key m
has_key-IsKeyed owner key m h =
    let (own, same) = both_true (m.user_id == owner) (opt_eq m.seed_key (some key)) h in
    (beq→eq m.user_id owner own, keyed_of m.seed_key key same)

pub Any-found :
    (P : Monitor → Type 0) (q : Monitor → Bool) (ms : List Monitor) (m : Monitor)
    → ((x : Monitor) → q x ≡ true → P x)
    → find q ms ≡ some m
    → Any P ms
Any-found P q [] m f h = absurd (cc)
Any-found P q (x ∷ ms) m f h = elim (Bool-cases (q x)) [
  | inl e ↦ inl (f x e)
  | inr e ↦ inr (Any-found P q ms m f (rw (e, if◌then◌else◌) at h))
]

pub Any-last : (P : Monitor → Type 0) (ms : List Monitor) (m : Monitor) → P m → Any P (ms ++ m ∷ [])
Any-last P [] m h = inl h
Any-last P (x ∷ ms) m h = inr (Any-last P ms m h)

pub if_kept : (P : Monitor → Type 0) (b : Bool) (m n : Monitor) → P m → P n → P (if b then n else m)
if_kept P true m n h k = k
if_kept P false m n h k = h

pub Any-kept :
    (P : Monitor → Type 0) (q : Monitor → Bool) (f : Monitor → Monitor) (ms : List Monitor)
    → ((m : Monitor) → P m → P (f m))
    → Any P ms
    → Any P (update_where q f ms)
Any-kept P q f [] k h = h
Any-kept P q f (m ∷ ms) k (inl h) = inl (if_kept P (q m) m (f m) h (k m h))
Any-kept P q f (m ∷ ms) k (inr h) = inr (Any-kept P q f ms k h)

pub found_apart :
    (owner : ℕ) (key : String) (ms : List Monitor) (m : Monitor) (i : ℕ)
    → All (λ y. y.id ≢ i) ms
    → find (has_key owner key) ms ≡ some m
    → i ≢ m.id
found_apart owner key [] m i d h = absurd (cc)
found_apart owner key (x ∷ ms) m i d h = elim (Bool-cases (has_key owner key x)) [
  | inl e ↦
      let same : x ≡ m = cc (rw (e, if◌then◌else◌) at h) in
      λ q. d.0 (ap (λ (y : Monitor). y.id) same ∙ sym q)
  | inr e ↦ found_apart owner key ms m i d.1 (rw (e, if◌then◌else◌) at h)
]

-- No other monitor has the id of the one that is found by its key.
pub found_key-OwnedAt :
    (owner : ℕ) (key : String) (ms : List Monitor) (m : Monitor)
    → DistinctIds ms
    → find (has_key owner key) ms ≡ some m
    → OwnedAt m.id owner ms
found_key-OwnedAt owner key [] m d h = tt
found_key-OwnedAt owner key (x ∷ ms) m d h = elim (Bool-cases (has_key owner key x)) [
  | inl e ↦
      let same : x ≡ m = cc (rw (e, if◌then◌else◌) at h) in
      subst (λ y. OwnedAt y.id owner (x ∷ ms)) same
        ((λ q. (has_key-IsKeyed owner key x e).0), All-map (λ y n q. absurd (n q)) ms d.0)
  | inr e ↦
      let later = rw (e, if◌then◌else◌) at h in
      (
        λ q. absurd (found_apart owner key ms m x.id d.0 later q),
        found_key-OwnedAt owner key ms m d.1 later,
      )
]

-- The user that is found is there with the change that is made to it.
pub Any-updated :
    (q r : User → Bool) (f : User → User) (us : List User) (u : User)
    → find r us ≡ some u
    → q u ≡ true
    → Any (λ x. x ≡ f u) (update_where q f us)
Any-updated q r f [] u h k = absurd (cc)
Any-updated q r f (x ∷ us) u h k = elim (Bool-cases (r x)) [
  | inl e ↦
      let same : x ≡ u = cc (rw (e, if◌then◌else◌) at h) in
      inl (subst (λ y. (if q y then f y else y) ≡ f u) (sym same) (rw (k, if◌then◌else◌) refl))
  | inr e ↦ inr (Any-updated q r f us u (rw (e, if◌then◌else◌) at h) k)
]

pub Any-added : (us : List User) (u : User) → Any (λ x. x ≡ u) (us ++ u ∷ [])
Any-added [] u = inl refl
Any-added (x ∷ us) u = inr (Any-added us u)

pub Any-map :
    (P Q : User → Type 0) (us : List User) → ((u : User) → P u → Q u) → Any P us → Any Q us
Any-map P Q [] f h = h
Any-map P Q (u ∷ us) f (inl h) = inl (f u h)
Any-map P Q (u ∷ us) f (inr h) = inr (Any-map P Q us f h)
