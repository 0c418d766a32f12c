-- ===== src/Audit/Judge/Published.antt =====
-- What the result file of base_audit.py holds after a run.
use de_framework.Audit.Models.{Kind}
use de_framework.Storage.Retry.{retry_run, retry_end, is_retried, recovery_max_retries, delay}
use de_framework.Audit.Judge.{
  JudgeEvent, Trial, clean_up, close_judge, judge, read_verdict, Write, completed, run_judge,
  attempt_of, same_kind, interrupted, other_event, publish, not_replaced, replaced_then, written,
}
use de_framework.Exec.{Result, ok, after-ok, err, Error}
use de_framework.Text.{Text}
use de_framework.Prelude.{
  refl, ℕ, List, Option, ◌∷◌, ◌≡◌, map, some, [], true, none, ◌+◌, ◌⊎◌, inl, if_elim, inr, not,
  ◌||◌, leb,
}

-- The first response or interruption among the events is that text.
abbrev pub Completes : Text → List JudgeEvent → Type 0
Completes text [] = ⊥
Completes text ((completed t) ∷ events) = t ≡ text
Completes text (interrupted ∷ events) = ⊥
Completes text (other_event ∷ events) = Completes text events

module _ {V : Type 0} (validate : Text → Result V) where
  -- The verdict of a trial, read from its completed response over a connection that was closed.
  pub record HasVerdict (v : V) (t : Trial) : Type 0 where
    pub text : Text
    pub completes : Completes text t.events
    pub accepted : validate text ≡ ok v
    pub connected : t.connects ≡ ok tt
    pub closed : t.closes ≡ ok tt

  read_verdict-Completes :
      (events : List JudgeEvent) (ends : Result (Unit {0})) (v : V)
      → read_verdict validate events ends ≡ ok v
      → (text : Text) × Completes text events × (validate text ≡ ok v)
  unfolding read_verdict
  read_verdict-Completes [] (ok x) v h = cc
  read_verdict-Completes [] (err e) v h = cc
  read_verdict-Completes ((completed t) ∷ events) ends v h = (t, refl, h)
  read_verdict-Completes (interrupted ∷ events) ends v h = cc
  read_verdict-Completes (other_event ∷ events) ends v h = read_verdict-Completes events ends v h

  clean_up-ok :
      (cleans : Result (Unit {0})) (r : Result V) (v : V)
      → clean_up validate cleans r ≡ ok v
      → r ≡ ok v
  clean_up-ok (ok x) r v h = h
  clean_up-ok (err e) r v h = cc

  close_judge-ok :
      (closes : Result (Unit {0})) (r : Result V) (v : V)
      → close_judge validate closes r ≡ ok v
      → (r ≡ ok v) × (closes ≡ ok tt)
  close_judge-ok (ok x) (ok w) v h = (h, refl)
  close_judge-ok (err e) (ok w) v h = cc
  close_judge-ok closes (err e) v h = cc

  judge-HasVerdict : (t : Trial) (v : V) → judge validate t ≡ ok v → HasVerdict v t
  unfolding judge
  judge-HasVerdict t v h =
      let (a, removed, h1) = after-ok t.removes _ v h in
      let h2 = clean_up-ok t.cleans _ v h1 in
      let (b, created, h3) = after-ok t.creates _ v h2 in
      let (h4, closed) = close_judge-ok t.closes _ v h3 in
      let (c, connected, h5) = after-ok t.connects _ v h4 in
      let (text, completes, accepted) = read_verdict-Completes t.events t.ends v h5 in
      record {
        text = text;
        completes = completes;
        accepted = accepted;
        connected = connected;
        closed = closed;
      }

  abbrev pub OneOf : V → List Trial → Type 0
  OneOf v [] = ⊥
  OneOf v (t ∷ trials) = HasVerdict v t ⊎ OneOf v trials

  raised : (e : Error) (v : V) → ¬ (some (err e) ≡ some (ok v))
  raised e v h = cc

  end-ok :
      (r : Result V) (used : ℕ) (rest : List ℕ × Option (Result V)) (v : V)
      → (retry_end r used rest).1 ≡ some (ok v)
      → (r ≡ ok v) ⊎ (rest.1 ≡ some (ok v))
  unfolding retry_end
  end-ok (ok w) used rest v h = inl (some_inj (ok w) (ok v) h)
    where
      some_inj : (a b : Result V) → some a ≡ some b → a ≡ b
      some_inj a b e = cc
  end-ok (err e) used rest v h =
      if_elim
        (λ (p : List ℕ × Option (Result V)).
          p.1 ≡ some (ok v) → (err e ≡ ok v) ⊎ (rest.1 ≡ some (ok v)))
        (not (is_retried e) || leb recovery_max_retries used) ([], some (err e))
        (delay used ∷ rest.0, rest.1) (λ _ k. absurd (raised e v k)) (λ _ k. inr k) h

  -- A run that returns a verdict returns that of one of its trials.
  retry_run-OneOf :
      (retries : ℕ) (trials : List Trial) (v : V)
      → (retry_run retries (map (attempt_of validate) trials)).1 ≡ some (ok v)
      → OneOf v trials
  unfolding retry_run
  retry_run-OneOf retries [] v h = cc
  retry_run-OneOf retries (t ∷ trials) v h =
      let later = retry_run (retries + 1) (map (attempt_of validate) trials) in
      elim (end-ok (judge validate t) retries later v h) [
        | inl judged ↦ inl (judge-HasVerdict t v judged)
        | inr rest ↦ inr (retry_run-OneOf (retries + 1) trials v rest)
      ]

  abbrev pub Published : List Trial → Option (Result (Unit {0})) → Option V → Type 0
  Published trials (some (ok x)) none = ⊥
  Published trials none (some v) = ⊥
  Published trials end none = Unit
  Published trials end (some v) = OneOf v trials

  publish-Published :
      (trials : List Trial) (writing : Write) (end : Option (Result V))
      → ((v : V) → end ≡ some (ok v) → OneOf v trials)
      → Published trials (publish validate writing end).0 (publish validate writing end).1
  publish-Published trials writing none h = tt
  publish-Published trials writing (some (err e)) h = tt
  publish-Published trials written (some (ok v)) h = h v refl
  publish-Published trials (not_replaced e) (some (ok v)) h = tt
  publish-Published trials (replaced_then e) (some (ok v)) h = h v refl

  -- A run of a matching request leaves no verdict of an earlier one: the file is missing, or it holds
  -- the verdict of one of the trials, read from its completed response over a connection that was
  -- closed. A run that returns has left a verdict.
  pub run_judge-Published :
      (name kind : Kind) (trials : List Trial) (writing : Write) (file : Option V)
      → same_kind name kind ≡ true
      → let (delays, result, saved) = run_judge validate name kind trials writing file in
        Published trials result saved
  unfolding run_judge
  run_judge-Published name kind trials writing file h = rw h (
      publish-Published trials writing (retry_run 0 (map (attempt_of validate) trials)).1
        (λ v e. retry_run-OneOf 0 trials v e))
