-- ===== src/Pages/DeletionFocus.antt =====
-- The focus after a deletion: the effect on the list in
-- frontend/src/features/monitors/MonitorsPage.tsx, and `onDeleteSuccess`, which it waits for.
use sentinel_project.Base.{
  Bool, List, Option, [], any, arith, false, if◌then◌else◌, inl, inr, nat_eq, none, not, refl, some,
  string_eq, true, ℕ, ◌&&◌, ◌+◌, ◌==◌, ◌∷◌, ◌≡◌, ◌≤◌, ◌⊎◌,
}

-- `deletions` counts the deletions that succeeded, and `focuses` how often the heading was focused.
pub record DeletionFocus : Type 0 where
  pub previous_ids : Option (List ℕ)
  pub deleted_id : Option ℕ
  pub deletions : ℕ
  pub focuses : ℕ

abbrev pub no_deletion : DeletionFocus
no_deletion = record { previous_ids = none; deleted_id = none; deletions = 0; focuses = 0 }

abbrev was_listed : ℕ → Option (List ℕ) → Bool
was_listed i none = false
was_listed i (some ids) = any (λ j. j == i) ids

-- The deleted monitor was in the list before and is not in this one.
abbrev is_gone : Option ℕ → Option (List ℕ) → List ℕ → Bool
is_gone none previous ids = false
is_gone (some i) previous ids = was_listed i previous && not (any (λ j. j == i) ids)

-- `deleted` is `onDeleteSuccess`; `listed` is the effect for a list, where the flag tells whether
-- the body has the focus.
pub data ListEvent : Type 0 where
  deleted : ℕ → ListEvent
  listed : List ℕ → Bool → ListEvent

unfoldable pub handle_list : ListEvent → DeletionFocus → DeletionFocus
handle_list (deleted i) s = record s { deleted_id = some i; deletions = s.deletions + 1 }
handle_list (listed ids at_body) s =
    let gone = is_gone s.deleted_id s.previous_ids ids in
    record s {
      previous_ids = some ids;
      deleted_id = if gone then none else s.deleted_id;
      focuses = if gone && at_body then s.focuses + 1 else s.focuses;
    }

unfoldable pub handle_lists : List ListEvent → DeletionFocus → DeletionFocus
unfolding handle_list
handle_lists [] s = s
handle_lists (e ∷ es) s = handle_lists es (handle_list e s)

abbrev waiting : Option ℕ → ℕ
waiting none = 0
waiting (some i) = 1

-- With the deletion that is waited for, the heading is focused no more often than deletions
-- succeed.
abbrev IsFrugal : DeletionFocus → Type 0
IsFrugal s = s.focuses + waiting s.deleted_id ≤ s.deletions

gone_waits :
    (o : Option ℕ) (previous : Option (List ℕ)) (ids : List ℕ)
    → (is_gone o previous ids ≡ false) ⊎ (waiting o ≡ 1)
gone_waits none previous ids = inl refl
gone_waits (some i) previous ids = inr refl

listed-IsFrugal :
    (o : Option ℕ) (gone at_body : Bool) (n k : ℕ)
    → n + waiting o ≤ k
    → (gone ≡ false) ⊎ (waiting o ≡ 1)
    → (if gone && at_body then n + 1 else n) + waiting (if gone then none else o) ≤ k
listed-IsFrugal o true true n k h (inr e) = omega (arith, h, e)
listed-IsFrugal o true false n k h (inr e) = omega (arith, h, e)
listed-IsFrugal o false at_body n k h e = omega (arith, h)
listed-IsFrugal o true at_body n k h (inl e) = absurd (cc)

handle_list-IsFrugal : (e : ListEvent) (s : DeletionFocus) → IsFrugal s → IsFrugal (handle_list e s)
unfolding handle_list
handle_list-IsFrugal (deleted i) s h = omega (arith, h)
handle_list-IsFrugal (listed ids at_body) s h =
    listed-IsFrugal s.deleted_id (is_gone s.deleted_id s.previous_ids ids) at_body s.focuses
      s.deletions h (gone_waits s.deleted_id s.previous_ids ids)

handle_lists-IsFrugal :
    (es : List ListEvent) (s : DeletionFocus) → IsFrugal s → IsFrugal (handle_lists es s)
unfolding handle_lists
handle_lists-IsFrugal [] s h = h
handle_lists-IsFrugal (e ∷ es) s h =
    handle_lists-IsFrugal es (handle_list e s) (handle_list-IsFrugal e s h)

-- Whatever lists come and whatever is deleted, the heading is focused at most once for each
-- deletion that succeeded.
pub focuses-deletions :
    (es : List ListEvent)
    → (handle_lists es no_deletion).focuses ≤ (handle_lists es no_deletion).deletions
focuses-deletions es =
    let h = handle_lists-IsFrugal es no_deletion (omega arith) in omega (arith, h)
