-- ===== src/Audit/Reuse/Sharing.antt =====
-- What `_reuse_saved_verdicts` of audit/audit_runner.py promises.
use de_framework.Audit.Reuse.Collect.{Cached, settle-Keeps, collect-Cached}
use de_framework.Storage.Manager.{content}
use de_framework.Audit.Reuse.Items.{Each-sorted, sorted-DistinctLabels, Each-elem}
use de_framework.Session.State.RoundTrip.{DistinctLabels}
use de_framework.Audit.Reuse.Cells.{Keeps, at_other, at_put, has-copy, put-Keeps, copy-Keeps}
use de_framework.Exec.{ok, after-ok, ok_inj}
use de_framework.Refine.State.{Checkpoints, member, keys}
use de_framework.Audit.Models.{Kind}
use de_framework.Text.{Text}
use de_framework.Audit.Reuse.{
  collect, settle, Labelled, Cache, at, cached, copy_missing_verdicts, reuse_saved_verdicts, spread,
  verdict, put_at, sorted_items, has,
}
use de_framework.Prelude.{
  some, refl, ℕ, ◌≡◌, Option, true, [], false, subst, ◌∷◌, ap, sym, arith, ◌∙◌, Bool, get_elem?,
  ◌||◌, suc, ◌==◌, zero,
}

module _ {V : Type 0} where
  spread_other :
      (items : Checkpoints) (cs : Labelled V) (saved : Cache V) (k : ℕ)
      → member k (keys items) ≡ false
      → at k (spread items cs saved) ≡ at k cs
  unfolding spread
  spread_other [] cs saved k m = refl
  spread_other ((j, v) ∷ rest) cs saved k m =
      let c = copy_missing_verdicts (at j cs) (cached (content v) saved) in
      spread_other rest (put_at j c cs) saved k (ground arith) ∙ at_other k j c cs (ground arith)

  -- What each checkpoint becomes.
  spread-elem :
      (items : Checkpoints) (cs : Labelled V) (saved : Cache V) (i k : ℕ) (v : Option Text)
      → DistinctLabels items
      → get_elem? items i ≡ some (k, v)
      → at k (spread items cs saved) ≡ copy_missing_verdicts (at k cs) (cached (content v) saved)
  unfolding spread
  spread-elem [] cs saved i k v u h = cc
  spread-elem ((j, w) ∷ rest) cs saved zero k v u h =
      let c = copy_missing_verdicts (at j cs) (cached (content w) saved) in
      let same : ◌≡◌ {A = ℕ × Option Text} (j, w) (k, v) = some_inj h in
      subst
        (λ e.
          at e.0 (spread rest (put_at j c cs) saved)
          ≡ copy_missing_verdicts (at e.0 cs) (cached (content e.1) saved))
        same (spread_other rest (put_at j c cs) saved j u.0 ∙ at_put j c cs)
    where
      some_inj :
          ◌≡◌ {A = Option (ℕ × Option Text)} (some (j, w)) (some (k, v))
          → ◌≡◌ {A = ℕ × Option Text} (j, w) (k, v)
      some_inj e = cc
  spread-elem ((j, w) ∷ rest) cs saved (suc i) k v u h =
      let c = copy_missing_verdicts (at j cs) (cached (content w) saved) in
      spread-elem rest (put_at j c cs) saved i k v u.1 h
      ∙ ap (λ x. copy_missing_verdicts x (cached (content v) saved))
          (at_other k j c cs (other rest i k j v h u.0))
    where
      other :
          (d : Checkpoints) (i k j : ℕ) (v : Option Text)
          → get_elem? d i ≡ some (k, v)
          → member j (keys d) ≡ false
          → (j == k) ≡ false
      other [] i k j v h m = cc
      other ((l, x) ∷ d) zero k j v h m = grind arith
      other ((l, x) ∷ d) (suc i) k j v h m = other d i k j v h (ground arith)

  spread-Keeps :
      (items : Checkpoints) (cs : Labelled V) (saved : Cache V) (k : ℕ)
      → Keeps (at k cs) (at k (spread items cs saved))
  unfolding spread
  spread-Keeps [] cs saved k kind v h = h
  spread-Keeps ((j, w) ∷ rest) cs saved k kind v h =
      let c = copy_missing_verdicts (at j cs) (cached (content w) saved) in
      spread-Keeps rest (put_at j c cs) saved k kind v
        (put-Keeps k j c cs (copy-Keeps (at j cs) (cached (content w) saved)) kind v h)

  collect-Keeps :
      (items : Checkpoints) (cs : Labelled V) (saved : Cache V) (a : Labelled V × Cache V) (k : ℕ)
      → collect items cs saved ≡ ok a
      → Keeps (at k cs) (at k a.0)
  unfolding collect
  collect-Keeps [] cs saved a k h kind v e =
      subst (λ x. verdict kind (at k x.0) ≡ some v) (ok_inj (cs, saved) a h) e
  collect-Keeps ((j, w) ∷ rest) cs saved a k h kind v e =
      let (c, h0, h1) = after-ok (settle (content w) (at j cs)) _ a h in
      collect-Keeps rest _ _ a k h1 kind v
        (put-Keeps k j c cs (settle-Keeps (content w) (at j cs) c h0) kind v e)

  pub reuse-Keeps :
      (solutions : Checkpoints) (cs ds : Labelled V) (k : ℕ)
      → reuse_saved_verdicts solutions cs ≡ ok ds
      → Keeps (at k cs) (at k ds)
  unfolding reuse_saved_verdicts
  reuse-Keeps solutions cs ds k h kind v e =
      let (a, h0, h1) = after-ok (collect (sorted_items solutions) cs []) _ ds h in
      subst (λ z. verdict kind (at k z) ≡ some v) (ok_inj (spread solutions a.0 a.1) ds h1)
        (spread-Keeps solutions a.0 a.1 k kind v
          (collect-Keeps (sorted_items solutions) cs [] a k h0 kind v e))

  has_same :
      (kind : Kind) (k : ℕ) (v : Option Text) (a : Labelled V × Cache V)
      → Cached kind a (k, v)
      → has kind (copy_missing_verdicts (at k a.0) (cached (content v) a.1))
        ≡ has kind (cached (content v) a.1)
  has_same kind k v a h =
      has-copy kind (at k a.0) (cached (content v) a.1)
      ∙ absorbs (has kind (at k a.0)) (has kind (cached (content v) a.1)) h
    where
      absorbs : (x y : Bool) → (x ≡ true → y ≡ true) → (x || y) ≡ y
      absorbs true y h = sym (h refl)
      absorbs false y h = refl

  -- The checkpoint of each label keeps every verdict that it had, and two checkpoints with the same
  -- solution, wherever they stand, have the same stages decided. No label stands twice.
  pub reuse_saved_verdicts_lem :
      (solutions : Checkpoints) (cs ds : Labelled V) (i j k l : ℕ) (v w : Option Text) (kind : Kind)
      → DistinctLabels solutions
      → reuse_saved_verdicts solutions cs ≡ ok ds
      → get_elem? solutions i ≡ some (k, v)
      → get_elem? solutions j ≡ some (l, w)
      → content v ≡ content w
      → Keeps (at k cs) (at k ds) × (has kind (at k ds) ≡ has kind (at l ds))
  unfolding reuse_saved_verdicts
  reuse_saved_verdicts_lem solutions cs ds i j k l v w kind u h x y same =
      let (a, h0, h1) = after-ok (collect (sorted_items solutions) cs []) _ ds h in
      let spreads = ok_inj (spread solutions a.0 a.1) ds h1 in
      let all_cached = Each-sorted (Cached kind a) solutions (
        collect-Cached (sorted_items solutions) cs [] a kind h0
          (sorted-DistinctLabels solutions u)) in
      let decided : (i k : ℕ) (v : Option Text)
          → get_elem? solutions i ≡ some (k, v)
          → has kind (at k ds) ≡ has kind (cached (content v) a.1) =
        λ i k v x.
          ap (λ z. has kind (at k z)) (sym spreads)
          ∙ ap (has kind) (spread-elem solutions a.0 a.1 i k v u x)
          ∙ has_same kind k v a (Each-elem (Cached kind a) solutions i (k, v) all_cached x) in
      (
        reuse-Keeps solutions cs ds k h,
        decided i k v x ∙ ap (λ t. has kind (cached t a.1)) same ∙ sym (decided j l w y),
      )
