-- ===== src/Audit/Judge/Tests.antt =====
-- The theorem about the result file at two trials.
use de_framework.Audit.Judge.Published.{Published, run_judge-Published}
use de_framework.Session.Connection.{prevail}
use de_framework.Text.{codes}
use de_framework.Audit.Models.{correctness}
use de_framework.Storage.Retry.{retry_run, retry_end, delay}
use de_framework.Exec.{ok, err, connection_error}
use de_framework.Audit.Judge.{
  Trial, run_judge, other_event, completed, judge, read_verdict, written,
}
use de_framework.Prelude.{refl, ◌∷◌, [], none, ◌≡◌, some}

abbrev lost : Trial
lost = record {
  removes = ok tt;
  creates = ok tt;
  connects = err connection_error;
  events = [];
  ends = ok tt;
  closes = ok tt;
  cleans = ok tt;
}

abbrev answered : Trial
answered = record lost { connects = ok tt; events = other_event ∷ completed (codes "v") ∷ [] }

run_judge-Published_example :
    let (delays, result, saved) =
      run_judge ok correctness correctness (lost ∷ answered ∷ []) written none in
    Published ok (lost ∷ answered ∷ []) result saved
run_judge-Published_example =
    run_judge-Published ok correctness correctness (lost ∷ answered ∷ []) written none refl

waits_once :
    run_judge ok correctness correctness (lost ∷ answered ∷ []) written none
    ≡ (2 ∷ [], some (ok tt), some (codes "v"))
unfolding run_judge retry_run retry_end delay judge read_verdict prevail
waits_once = refl
