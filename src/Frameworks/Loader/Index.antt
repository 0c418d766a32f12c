-- ===== src/Frameworks/Loader/Index.antt =====
-- The dictionaries that dataloader.py builds against the rows of the file.
use de_framework.Exec.{ok, after-ok, ok_inj, after, Result}
use de_framework.Frameworks.Loader.Reading.{
  seeds_of, RowReader, Source, is_from_source, passes, read_row, add_row, read_lines, add_read,
}
use de_framework.Text.{Text, text_eq, text_eq_sound, text_eq_apart}
use de_framework.Frameworks.Loader.{
  Runs, Seeds, add_checkpoint, add_seed, at_checkpoint, Checkpoints, AuditRow, add_run,
}
use de_framework.Prelude.{
  refl, ℕ, Bool, Option, [], ◌∷◌, ◌≡◌, if◌then◌else◌, none, ◌++◌, ◌==◌, ◌≤◌, some, ◌&&◌, arith,
  subst, if_elim, List, ap, true, sym, ◌∙◌, All,
}

unfoldable pub checkpoints_of : ℕ → Seeds → Checkpoints
checkpoints_of s [] = []
checkpoints_of s ((t, cs) ∷ seeds) =
    let rest = checkpoints_of s seeds in if t == s then cs else rest

-- `runs[id][seed].get(checkpoint)`
abbrev pub find : Runs → Text → ℕ → ℕ → Option Bool
find runs id s c = at_checkpoint c (checkpoints_of s (seeds_of id runs))

abbrev pub override : Bool → Bool → Option Bool → Option Bool
override hit b old = if hit then some b else old

append_lem :
    (c : ℕ) (b : Bool) (cs : Checkpoints) (i : ℕ)
    → at_checkpoint c cs ≡ none
    → at_checkpoint i (cs ++ (c, b) ∷ []) ≡ override (c == i) b (at_checkpoint i cs)
unfolding at_checkpoint
append_lem c b [] i h = ground arith
append_lem c b ((d, x) ∷ cs) i h = ground (arith, append_lem c b cs i)

add_checkpoint_lem :
    (h c : ℕ) (b : Bool) (cs ds : Checkpoints)
    → add_checkpoint h c b cs ≡ ok ds
    → (c ≤ h) × ((i : ℕ) → at_checkpoint i ds ≡ override (c == i) b (at_checkpoint i cs))
unfolding add_checkpoint
add_checkpoint_lem h c b cs ds e = (ground (arith, e), λ i. ground (arith, e, append_lem c b cs i))

-- What a dictionary of checkpoints by seed holds after a row.
abbrev SeedAdded : ℕ → ℕ → ℕ → Bool → Seeds → Seeds → Type 0
SeedAdded h s c b seeds ts =
    (c ≤ h)
    × ((t i : ℕ)
        → at_checkpoint i (checkpoints_of t ts)
          ≡ override (s == t && c == i) b (at_checkpoint i (checkpoints_of t seeds)))

add_seed_lem :
    (h s c : ℕ) (b : Bool) (seeds ts : Seeds)
    → add_seed h s c b seeds ≡ ok ts
    → SeedAdded h s c b seeds ts
unfolding add_seed checkpoints_of at_checkpoint
add_seed_lem h s c b [] ts e =
    let (cs, added, done) = after-ok (add_checkpoint h c b []) _ ts e in
    let (bound, at) = add_checkpoint_lem h c b [] cs added in
    subst (SeedAdded h s c b []) (ok_inj _ ts done) (bound, λ t i. ground (arith, at i))
add_seed_lem h s c b ((u, cs) ∷ seeds) ts e =
    let here : Checkpoints → Result Seeds = λ ds. ok ((u, ds) ∷ seeds) in
    let there : Seeds → Result Seeds = λ rest. ok ((u, cs) ∷ rest) in
    if_elim (λ r. r ≡ ok ts → SeedAdded h s c b ((u, cs) ∷ seeds) ts) (u == s)
      (after (add_checkpoint h c b cs) here) (after (add_seed h s c b seeds) there)
      (λ same k.
        let (ds, added, done) = after-ok (add_checkpoint h c b cs) here ts k in
        let (bound, at) = add_checkpoint_lem h c b cs ds added in
        subst (SeedAdded h s c b ((u, cs) ∷ seeds)) (ok_inj _ ts done)
          (bound, λ t i. ground (arith, same, at i)))
      (λ other k.
        let (rest, added, done) = after-ok (add_seed h s c b seeds) there ts k in
        let (bound, at) = add_seed_lem h s c b seeds rest added in
        subst (SeedAdded h s c b ((u, cs) ∷ seeds)) (ok_inj _ ts done)
          (bound, λ t i. ground (arith, other, at t i)))
      e

-- The same for the dictionary of all problems.
abbrev RunAdded : ℕ → Text → ℕ → ℕ → Bool → Runs → Runs → Type 0
RunAdded h id s c b runs more =
    (c ≤ h)
    × ((q : Text) (t i : ℕ)
        → find more q t i ≡ override (text_eq id q && s == t && c == i) b (find runs q t i))

add_run_lem :
    (h : ℕ) (id : Text) (s c : ℕ) (b : Bool) (runs more : Runs)
    → add_run h id s c b runs ≡ ok more
    → RunAdded h id s c b runs more
unfolding add_run seeds_of checkpoints_of at_checkpoint
add_run_lem h id s c b [] more e =
    let (ts, added, done) = after-ok (add_seed h s c b []) _ more e in
    let (bound, at) = add_seed_lem h s c b [] ts added in
    subst (RunAdded h id s c b []) (ok_inj _ more done) (bound, λ q t i. ground (arith, at t i))
add_run_lem h id s c b ((p, seeds) ∷ runs) more e =
    let here : Seeds → Result Runs = λ ts. ok ((p, ts) ∷ runs) in
    let there : Runs → Result Runs = λ rest. ok ((p, seeds) ∷ rest) in
    if_elim (λ r. r ≡ ok more → RunAdded h id s c b ((p, seeds) ∷ runs) more) (text_eq p id)
      (after (add_seed h s c b seeds) here) (after (add_run h id s c b runs) there)
      (λ same k.
        let (ts, added, done) = after-ok (add_seed h s c b seeds) here more k in
        let (bound, at) = add_seed_lem h s c b seeds ts added in
        subst (RunAdded h id s c b ((p, seeds) ∷ runs)) (ok_inj _ more done)
          (bound, λ q t i. ground (arith, at t i, ap (λ x. text_eq x q) (text_eq_sound p id same))))
      (λ other k.
        let (rest, added, done) = after-ok (add_run h id s c b runs) there more k in
        let (bound, at) = add_run_lem h id s c b runs rest added in
        subst (RunAdded h id s c b ((p, seeds) ∷ runs)) (ok_inj _ more done)
          (bound, λ q t i. ground (arith, at q t i, text_eq_apart p id q other)))
      e

-- A row that the loader accepts.
pub record IsAdmitted (str : ℕ → Text) (source : Source) (row : AuditRow) : Type 0 where
  pub from_source : is_from_source str source row ≡ true
  pub in_horizon : row.checkpoint_multiplier_k ≤ source.horizon

-- What the rows say of a checkpoint, a later row first.
abbrev pub latest : List AuditRow → Text → ℕ → ℕ → Option Bool → Option Bool
latest [] id s c old = old
latest (row ∷ rows) id s c old = latest rows id s c (
    override (text_eq row.problem_id id && row.seed == s && row.checkpoint_multiplier_k == c)
      (passes row) old)

abbrev with_row : Option AuditRow → List AuditRow → List AuditRow
with_row none rows = rows
with_row (some row) rows = row ∷ rows

-- The rows of the selected problems in a file.
unfoldable pub rows_of : RowReader → List Text → List Text → Result (List AuditRow)
rows_of r problems [] = ok []
rows_of r problems (line ∷ lines) =
    after (read_row r problems line)
      (λ row. after (rows_of r problems lines) (λ rows. ok (with_row row rows)))

-- The dictionary after some rows.
pub record Indexes (str : ℕ → Text) (source : Source) (old runs : Runs) (rows : List AuditRow)
    : Type 0 where
  pub admitted : All (IsAdmitted str source) rows
  pub indexed : (id : Text) (s c : ℕ) → find runs id s c ≡ latest rows id s c (find old id s c)

add_read_lem :
    (str : ℕ → Text) (source : Source) (row : Option AuditRow) (old more runs : Runs)
    (rows : List AuditRow)
    → add_read str source row old ≡ ok more
    → Indexes str source more runs rows
    → Indexes str source old runs (with_row row rows)
unfolding add_row
add_read_lem str source none old more runs rows e h =
    subst (λ m. Indexes str source m runs rows) (sym (ok_inj old more e)) h
add_read_lem str source (some row) old more runs rows e h =
    let (bound, at) =
      add_run_lem source.horizon row.problem_id row.seed row.checkpoint_multiplier_k (passes row)
        old more (ground (arith, e)) in
    record {
      admitted = (record { from_source = ground (arith, e); in_horizon = bound }, h.admitted);
      indexed = λ id s c. h.indexed id s c ∙ ap (latest rows id s c) (at id s c);
    }

-- Where the rows of a file are read, each one comes from the directory and within its horizon, and
-- the dictionaries hold for each problem, seed and checkpoint what the rows say of it.
pub read_lines-Indexes :
    (r : RowReader) (source : Source) (problems lines : List Text) (old runs : Runs)
    → read_lines r source problems lines old ≡ ok runs
    → (rows : List AuditRow) × (rows_of r problems lines ≡ ok rows)
      × Indexes r.str source old runs rows
unfolding read_lines rows_of
read_lines-Indexes r source problems [] old runs e = (
  [],
  refl,
  subst (λ m. Indexes r.str source old m []) (ok_inj old runs e)
      (record { admitted = tt; indexed = λ id s c. refl }),
)
read_lines-Indexes r source problems (line ∷ lines) old runs e =
    let (row, read, e1) = after-ok (read_row r problems line) _ runs e in
    let (more, added, e2) =
      after-ok (add_read r.str source row old) (λ m. read_lines r source problems lines m) runs
        e1 in
    let (rows, eq, index) = read_lines-Indexes r source problems lines more runs e2 in
    (
      with_row row rows,
      ground (arith, read, eq),
      add_read_lem r.str source row old more runs rows added index,
    )
