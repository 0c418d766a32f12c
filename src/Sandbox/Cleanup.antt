-- ===== src/Sandbox/Cleanup.antt =====
-- What is left of a container of harness/sandbox/sandbox.py.
use de_framework.Exec.{
  Result, Error, err, Outcome, decide-Outcome, ok, require_ok, bind-Outcome, other_error,
  map-Outcome, ◌>>◌, return-Outcome, raise-Outcome, is_cancelled,
}
use de_framework.Text.{Text, text_eq, strip}
use de_framework.Sandbox.{
  Command, End, remove, done, exits, missing_container, remove_container, remove_result, clean_up,
  execute_container, create_container, fails, start_container, first_failure,
}
use de_framework.Prelude.{ℕ, Bool, ◌≡◌, false, true, refl, ap, ◌⊎◌, inr, inl, if_elim}

-- Docker's documented behaviour: after a removal that is done, or that reports the container's
-- absence, there is no such container.
module _ {W : Type 0} (docker : Command → W → End × W) (parse_float : Text → Result ℕ)
    (stands : Text → W → Bool)
    (removes : (name : Text) (w : W) (output : Text)
      → (docker (remove name) w).0 ≡ done output
      → stands name (docker (remove name) w).1 ≡ false)
    (misses : (name : Text) (w : W) (code : ℕ) (stderr : Text)
      → (docker (remove name) w).0 ≡ exits code stderr
      → text_eq (strip stderr) (missing_container name) ≡ true
      → stands name (docker (remove name) w).1 ≡ false) where
  abbrev pub IsGone : Text → W → Type 0
  IsGone name w = stands name w ≡ false

  -- A removal failed, and this is what it left.
  abbrev pub IsStuck : Text → W → Type 0
  IsStuck name v = (u : W) × (e : Error) × (remove_container docker parse_float name u ≡ (err e, v))

  IsGone-after :
      (name : Text) (w : W) (end : End)
      → (docker (remove name) w).0 ≡ end
      → remove_result docker parse_float name end ≡ ok tt
      → IsGone name (docker (remove name) w).1
  unfolding remove_result
  IsGone-after name w (done output) h k = removes name w output h
  IsGone-after name w (exits code stderr) h k =
      misses name w code stderr h
        (require_ok (text_eq (strip stderr) (missing_container name)) other_error k)
  IsGone-after name w (fails e) h k = cc

  remove-Gone :
      (name : Text) (w : W)
      → Outcome
          (λ _ v. IsGone name v)
          (λ v. IsStuck name v)
          (remove_container docker parse_float name w)
  unfolding remove_container
  remove-Gone name w =
      let (end, v) = docker (remove name) w in
      decide-Outcome (remove_result docker parse_float name end) v
        (λ _ h. IsGone-after name w end refl h) (λ e h. (w, e, ap (λ r. (r, v)) h))

  -- An action, and the end of a container, whatever the action did.
  clean_up-Gone :
      {A : Type 0} (name : Text) (p : Result A × W)
      → Outcome
          (λ _ v. IsGone name v)
          (λ v. IsGone name v ⊎ IsStuck name v)
          (clean_up docker parse_float name p)
  unfolding clean_up
  clean_up-Gone name (ok a, w) =
      bind-Outcome {Q = λ _ v. IsGone name v} (remove_container docker parse_float name) w
        (map-Outcome (remove_container docker parse_float name w) (λ _ _ h. h) (λ _ h. inr h)
          (remove-Gone name w))
        (λ _ v h. return-Outcome h)
  clean_up-Gone name (err e, w) =
      raised (remove_container docker parse_float name w) (remove-Gone name w)
    where
      raised :
          {A : Type 0} (q : Result (Unit {0}) × W)
          → Outcome (λ _ v. IsGone name v) (λ v. IsStuck name v) q
          → Outcome {A = A}
              (λ _ v. IsGone name v)
              (λ v. IsGone name v ⊎ IsStuck name v)
              (first_failure docker parse_float e q.0, q.1)
      raised {A = A} (ok u, v) o = raise-Outcome (inl o.ends)
      raised {A = A} (err f, v) o =
          if_elim
            (λ r.
              Outcome {A = A} (λ _ v. IsGone name v) (λ v. IsGone name v ⊎ IsStuck name v) (r, v))
            (is_cancelled f) (err f) (err e) (λ _. raise-Outcome (inr o.ends))
            (λ _. raise-Outcome (inr o.ends))

  -- Where the run of a worker returns, its container is gone; where it raises, the container is
  -- gone too, or its removal is what failed.
  pub execute_container-Gone :
      (directory request name : Text) (w : W)
      → Outcome
          (λ _ v. IsGone name v)
          (λ v. IsGone name v ⊎ IsStuck name v)
          (execute_container docker parse_float directory request name w)
  unfolding execute_container
  execute_container-Gone directory request name w = clean_up-Gone name (
      (create_container docker parse_float directory name
          >> start_container docker parse_float name request)
        w)
