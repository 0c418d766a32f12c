-- ===== src/Storage/Manager/Tests.antt =====
-- The theorems about checkpoints and their manager at a small attempt. A label is written as its
-- tally, and every text is an identity.
use de_framework.Storage.Runtime.{write_archive, archive_entry, is_within}
use de_framework.Session.State.RoundTrip.{from_json-to_json}
use de_framework.Storage.Manager.Operations.{run_op, opens, run_op-Refines}
use de_framework.Proxy.Requests.{insert}
use de_framework.Refine.Valid.{IsValid}
use de_framework.Storage.Archive.{PurePosixPath}
use de_framework.Exec.{Result, ok, err, other_error}
use de_framework.Storage.Manager.Cell.{Cell, Refines}
use de_framework.Storage.Manager.{
  Io, Manager, Seed, open_attempt, open_body, is_none, require_new_attempt, new_manager,
  write_checkpoint, close_attempt,
}
use de_framework.Session.State.{SessionState, new_session, sorted_set, from_json, to_json}
use de_framework.Refine.State.{RefinementState, new_state, validate}
use de_framework.Text.{Text, codes, is_blank}
use de_framework.Prelude.{
  ℕ, List, length, ◌≡◌, Bool, [], none, suc, ap, false, some, true, ◌∷◌, arith, zero, ◌&&◌, refl,
}

abbrev pub tally : ℕ → Text
tally zero = []
tally (suc n) = 1 ∷ tally n

abbrev pub count : Text → Result ℕ
count t = ok (length t)

length-tally : (n : ℕ) → length (tally n) ≡ n
length-tally zero = refl
length-tally (suc n) = ap suc (length-tally n)

pub count-tally : (n : ℕ) → count (tally n) ≡ ok n
count-tally n = ap ok (length-tally n)

abbrev pub every : Text → Bool
every t = true

abbrev pub home : List Text
home = codes "seed" ∷ codes ".runtime" ∷ []

abbrev pub same_path : List Text → List Text → PurePosixPath
same_path p base = record { is_absolute = false; parts = p }

abbrev one_label : RefinementState
one_label = record (new_state (codes "P") 300000 none) {
  output_tokens = 210000;
  rounds = 2;
  solution = some (codes "x");
  solution_checkpoints = (1, some (codes "x")) ∷ [];
}

one_label-IsValid : IsValid one_label
unfolding new_state is_blank
one_label-IsValid = record {
  stated = refl;
  budgeted = omega arith;
  pause = tt;
  streak = omega arith;
  counted = omega arith;
  within = omega arith;
  labels = λ k. ground arith;
}

abbrev saved_session : SessionState
saved_session = record (new_session one_label (some (codes "id"))) {
  completed_message_ids = codes "b" ∷ codes "a" ∷ codes "b" ∷ [];
}

from_json-to_json_example :
    from_json tally count every (to_json tally count every saved_session)
    ≡ ok (record saved_session { completed_message_ids = codes "a" ∷ codes "b" ∷ [] })
unfolding new_state sorted_set insert
from_json-to_json_example =
    from_json-to_json tally count every count-tally saved_session one_label-IsValid (refl, tt) refl

abbrev pub io : Io
io = record { acquires = ok tt; saves = ok tt; exports = ok tt }

abbrev empty_seed : Seed
empty_seed = record { session = none; runtime = none; solutions = [] }

abbrev empty_cell : Cell
empty_cell = record { stored = none; live = none }

run_op-Refines_example : Refines tally count every count-tally home same_path empty_cell (
    run_op tally count every count-tally home same_path
      (opens io one_label)
      (new_manager empty_seed))
unfolding new_state
run_op-Refines_example =
    run_op-Refines tally count every count-tally home same_path (opens io one_label)
      (new_manager empty_seed) empty_cell (record { says = refl; live = refl; ready = tt })
      (refl, tt)

-- After a failed archive write nothing is held, and the progress of the directory is as it was.
abbrev full_disk : Io
full_disk = record { acquires = ok tt; saves = err other_error; exports = ok tt }

abbrev holds_nothing : Manager → Bool
holds_nothing w = is_none w.session_state && is_none w.seed.session

failed_open :
    holds_nothing (
      run_op tally count every count-tally home same_path
        (opens full_disk one_label)
        (new_manager empty_seed))
    ≡ true
unfolding open_attempt open_body validate is_blank new_state require_new_attempt write_checkpoint
    write_archive archive_entry is_within close_attempt
failed_open = refl
