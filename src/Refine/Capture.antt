-- ===== src/Refine/Capture.antt =====
-- Which labels `_capture_solution_checkpoints` freezes, and with what.
use de_framework.Text.{Text}
use de_framework.Prelude.{
  Option, none, some, ℕ, zero, suc, ◌+◌, ◌≤◌, ◌<◌, ◌≡◌, refl, ◌⊎◌, inl, inr, true, false, some,
  arith, ◌==◌, length, ℤ, exceeds, Bool-cases, pos, subst, ◌*◌, ◌-◌, sym, Option, Bool, ◌∙◌, ap,
  if_elim,
}
use de_framework.Text.{Text}
use de_framework.Refine.State.{
  Phase, RunStatus, RefinementState, active_limit, output_tokens_per_block, new_state, Checkpoints,
  put,
}
use de_framework.Refine.Budget.{boundary, freeze, capture_from, capture_solution_checkpoints}
use de_framework.Refine.Valid.{IsValid}
use de_framework.Refine.Labels.{Contiguous, get, get-put, put-Contiguous, length-put}

-- `t` is `s` after the labels up to the first boundary beyond `through` are frozen, at most `count`
-- of them: nothing else changes, frozen labels keep their solution, and each new one holds the
-- present solution.
pub record Captured (s : RefinementState) (through : ℤ) (count : ℕ) (t : RefinementState)
    : Type 0 where
  pub rest : t ≡ record s { solution_checkpoints = t.solution_checkpoints }
  pub labels : Contiguous t.solution_checkpoints
  pub grows : length s.solution_checkpoints ≤ length t.solution_checkpoints
  pub bounded : length t.solution_checkpoints ≤ length s.solution_checkpoints + count
  pub old :
      (k : ℕ)
      → k ≤ length s.solution_checkpoints
      → get k t.solution_checkpoints ≡ get k s.solution_checkpoints
  pub fresh :
      (k : ℕ)
      → length s.solution_checkpoints < k
      → k ≤ length t.solution_checkpoints
      → (get k t.solution_checkpoints ≡ some s.solution) × (exceeds (boundary s k) through ≡ false)
  pub stop :
      (length t.solution_checkpoints ≡ length s.solution_checkpoints + count)
      ⊎ (exceeds (boundary s (length t.solution_checkpoints + 1)) through ≡ true)

module _ (s : RefinementState) (through : ℤ) (n : ℕ) (full : length s.solution_checkpoints ≡ n)
    (labels : Contiguous s.solution_checkpoints) where
  Captured-stop :
      (count : ℕ)
      → (count ≡ 0) ⊎ (exceeds (boundary s (suc n)) through ≡ true)
      → Captured s through count s
  Captured-stop count why = record {
    rest = refl;
    labels = labels;
    grows = omega arith;
    bounded = omega arith;
    old = λ k h. refl;
    fresh = λ k h l. absurd (omega arith);
    stop = ground (arith, why);
  }

  length-freeze : length (freeze s (suc n)).solution_checkpoints ≡ suc n
  length-freeze =
      ground (arith, labels (suc n), length-put (suc n) s.solution s.solution_checkpoints)

  freeze-Contiguous : Contiguous (freeze s (suc n)).solution_checkpoints
  freeze-Contiguous k = ground (arith, put-Contiguous s.solution s.solution_checkpoints labels k)

  Captured-next :
      (count : ℕ) (t : RefinementState)
      → exceeds (boundary s (suc n)) through ≡ false
      → Captured (freeze s (suc n)) through count t
      → Captured s through (suc count) t
  unfolding boundary
  Captured-next count t below c = record {
    rest = c.rest;
    labels = c.labels;
    grows = omega (arith, length-freeze, c.grows);
    bounded = omega (arith, length-freeze, c.bounded);
    old = λ k h.
        ground (arith, length-freeze, c.old k, get-put (suc n) k s.solution s.solution_checkpoints);
    fresh = λ k h l. elim (Bool-cases (suc n == k)) [
      | inl e ↦
          ground
            (arith, length-freeze, c.old k, get-put (suc n) k s.solution s.solution_checkpoints)
      | inr e ↦ ground (arith, length-freeze, c.fresh k)
    ];
    stop = ground (arith, length-freeze, c.stop);
  }

capture_from-Captured :
    (s : RefinementState) (through : ℤ) (count : ℕ) (n : ℕ)
    → length s.solution_checkpoints ≡ n
    → Contiguous s.solution_checkpoints
    → Captured s through count (capture_from s through count (suc n))
unfolding capture_from
capture_from-Captured s through zero n e l = Captured-stop s through n e l zero (inl refl)
capture_from-Captured s through (suc count) n e l =
    elim (Bool-cases (exceeds (boundary s (suc n)) through)) [
      | inl over ↦ rw over (Captured-stop s through n e l (suc count) (inr over))
      | inr below ↦ rw below (
          Captured-next s through n e l count _ below (
            capture_from-Captured (freeze s (suc n)) through count (suc n)
              (length-freeze s through n e l) (freeze-Contiguous s through n e l)))
    ]

-- On a state whose labels are contiguous, `_capture_solution_checkpoints` freezes the labels in
-- order up to the first one whose boundary lies beyond `through`.
pub capture-Captured :
    (s : RefinementState) (through : ℤ)
    → Contiguous s.solution_checkpoints
    → Captured s through
        (s.checkpoint_count - length s.solution_checkpoints)
        (capture_solution_checkpoints s through)
unfolding capture_solution_checkpoints
capture-Captured s through l =
    let n = length s.solution_checkpoints in
    subst
      (λ m.
        Captured s through (s.checkpoint_count - n)
          (capture_from s through (s.checkpoint_count - n) m))
      (omega arith) (capture_from-Captured s through (s.checkpoint_count - n) n refl l)

-- So it keeps a state valid.
pub capture-IsValid :
    (s : RefinementState) (through : ℤ)
    → IsValid s
    → IsValid (capture_solution_checkpoints s through)
capture-IsValid s through v =
    let t = capture_solution_checkpoints s through in
    let c = capture-Captured s through v.labels in
    subst IsValid (sym c.rest) (record {
      stated = v.stated;
      budgeted = v.budgeted;
      pause = v.pause;
      streak = v.streak;
      counted = v.counted;
      within = omega (arith, c.bounded, v.within);
      labels = c.labels;
    })

-- Labels below the last have their boundary inside the allowance.
abbrev pub Reachable : RefinementState → Type 0
Reachable s =
    (k : ℕ)
    → length s.solution_checkpoints < k
    → k < s.checkpoint_count
    → k * output_tokens_per_block ≤ active_limit s

-- Where the boundaries of the labels lie inside the allowance, a capture through the allowance
-- leaves no label of it open.
pub capture-full :
    (s : RefinementState)
    → IsValid s
    → Reachable s
    → length (capture_solution_checkpoints s (pos (active_limit s))).solution_checkpoints
      ≡ s.checkpoint_count
capture-full s v reach =
    let t = capture_solution_checkpoints s (pos (active_limit s)) in
    let n = length t.solution_checkpoints in
    let c = capture-Captured s (pos (active_limit s)) v.labels in
    elim c.stop [
      | inl all ↦ omega (arith, all, v.within)
      | inr over ↦ unfold boundary in ground (arith, reach (n + 1), c.grows, c.bounded, v.within)
    ]

-- The same at any number that equals the allowance, by the state that results.
pub capture_at_limit :
    (s : RefinementState) (m : ℕ)
    → IsValid s
    → Reachable s
    → m ≡ active_limit s
    → let t = capture_solution_checkpoints s (pos m) in
      length t.solution_checkpoints ≡ t.checkpoint_count
capture_at_limit s m v reach e =
    let c = capture-Captured s (pos (active_limit s)) v.labels in
    subst
      (λ n.
        length (capture_solution_checkpoints s (pos n)).solution_checkpoints
        ≡ (capture_solution_checkpoints s (pos n)).checkpoint_count)
      (sym e) (capture-full s v reach ∙ sym (ap (λ t. t.checkpoint_count) c.rest))

pub capture-Reachable :
    (s : RefinementState) (through : ℤ)
    → IsValid s
    → Reachable s
    → Reachable (capture_solution_checkpoints s through)
capture-Reachable s through v reach =
    let c = capture-Captured s through v.labels in
    subst Reachable (sym c.rest)
      (λ k l h. unfold active_limit in reach k (omega (arith, c.grows)) h)

-- Progress other than the labels may change freely.
pub progress-Reachable :
    (s : RefinementState)
    → Reachable s
    → (phase : Phase) (tokens rounds streak : ℕ) (warned : Bool) (solution : Option Text)
      (status : RunStatus)
    → Reachable (record s {
      phase = phase;
      output_tokens = tokens;
      rounds = rounds;
      no_gap_critiques = streak;
      warning_sent = warned;
      solution = solution;
      status = status;
    })
unfolding active_limit
progress-Reachable s reach phase tokens rounds streak warned solution status k l h = reach k l h

-- A fresh attempt has one label for each block that its allowance begins.
pub new_state-Reachable :
    (problem : Text) (budget : ℕ) (pause : Option ℕ) → Reachable (new_state problem budget pause)
unfolding new_state active_limit
new_state-Reachable problem budget none k l h = omega arith
new_state-Reachable problem budget (some p) k l h = omega arith

-- A capture leaves alone whatever does not read the labels.
module _ {ℓ} {A : Type ℓ} (f : RefinementState → A)
    (blind : (s : RefinementState) (d : Checkpoints)
      → f (record s { solution_checkpoints = d }) ≡ f s) where
  capture_from-field :
      (s : RefinementState) (through : ℤ) (count multiplier : ℕ)
      → f (capture_from s through count multiplier) ≡ f s
  unfolding capture_from
  capture_from-field s through zero multiplier = refl
  capture_from-field s through (suc count) multiplier =
      if_elim (λ t. f t ≡ f s) (exceeds (boundary s multiplier) through) _ _ (λ _. refl)
        (λ _.
          capture_from-field (freeze s multiplier) through count (suc multiplier)
          ∙ blind s (put multiplier s.solution s.solution_checkpoints))

  pub capture-field :
      (s : RefinementState) (through : ℤ) → f (capture_solution_checkpoints s through) ≡ f s
  unfolding capture_solution_checkpoints
  capture-field s through = capture_from-field s through _ _
