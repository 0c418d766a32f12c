-- ===== src/Audit/Reuse/Items.antt =====
-- The solutions of a seed, as audit/audit_runner.py goes through them in the order of their labels.
use de_framework.Session.State.RoundTrip.{DistinctLabels}
use de_framework.Refine.State.{Checkpoints, member, keys}
use de_framework.Text.{Text}
use de_framework.Audit.Reuse.{insert_item, sorted_items}
use de_framework.Prelude.{
  ℕ, Option, get_elem?, ◌∷◌, [], if_elim, ◌∙◌, ◌≡◌, arith, false, leb, some, refl, subst, suc, zero,
}

abbrev pub Each : (ℕ × Option Text → Type 0) → Checkpoints → Type 0
Each P [] = Unit
Each P (e ∷ d) = P e × Each P d

pub Each-elem :
    (P : ℕ × Option Text → Type 0) (d : Checkpoints) (i : ℕ) (e : ℕ × Option Text)
    → Each P d
    → get_elem? d i ≡ some e
    → P e
Each-elem P [] i e h k = cc
Each-elem P (f ∷ d) zero e h k = subst P (some_inj k) h.0
  where
    some_inj : some f ≡ some e → f ≡ e
    some_inj k = cc
Each-elem P (f ∷ d) (suc i) e h k = Each-elem P d i e h.1 k

Each-insert :
    (P : ℕ × Option Text → Type 0) (e : ℕ × Option Text) (d : Checkpoints)
    → Each P (insert_item e d)
    → P e × Each P d
unfolding insert_item
Each-insert P e [] h = h
Each-insert P e (f ∷ d) h =
    if_elim (λ x. Each P x → P e × (P f × Each P d)) (leb e.0 f.0) (e ∷ f ∷ d) (f ∷ insert_item e d)
      (λ _ k. k) (λ _ k. let (p, q) = Each-insert P e d k.1 in (p, (k.0, q))) h

pub Each-sorted :
    (P : ℕ × Option Text → Type 0) (d : Checkpoints) → Each P (sorted_items d) → Each P d
unfolding sorted_items
Each-sorted P [] h = tt
Each-sorted P (e ∷ d) h = let (p, q) = Each-insert P e (sorted_items d) h in (p, Each-sorted P d q)

member-insert :
    (k : ℕ) (e : ℕ × Option Text) (d : Checkpoints)
    → member k (keys (insert_item e d)) ≡ member k (keys (e ∷ d))
unfolding insert_item
member-insert k e [] = refl
member-insert k e (f ∷ d) = ground (arith, member-insert k e d)

insert-DistinctLabels :
    (e : ℕ × Option Text) (d : Checkpoints)
    → member e.0 (keys d) ≡ false
    → DistinctLabels d
    → DistinctLabels (insert_item e d)
unfolding insert_item
insert-DistinctLabels e [] h u = (refl, tt)
insert-DistinctLabels e (f ∷ d) h u =
    if_elim DistinctLabels (leb e.0 f.0) (e ∷ f ∷ d) (f ∷ insert_item e d) (λ _. (h, u))
      (λ _. (
        ground (arith, member-insert f.0 e d, h, u.0),
        insert-DistinctLabels e d (ground arith) u.1,
      ))

member-sorted : (k : ℕ) (d : Checkpoints) → member k (keys (sorted_items d)) ≡ member k (keys d)
unfolding sorted_items
member-sorted k [] = refl
member-sorted k (e ∷ d) = ground (arith, member-insert k e (sorted_items d), member-sorted k d)

pub sorted-DistinctLabels : (d : Checkpoints) → DistinctLabels d → DistinctLabels (sorted_items d)
unfolding sorted_items
sorted-DistinctLabels [] u = tt
sorted-DistinctLabels (e ∷ d) u =
    insert-DistinctLabels e (sorted_items d) (member-sorted e.0 d ∙ u.0)
      (sorted-DistinctLabels d u.1)
