-- ===== src/Launcher/Tests.antt =====
-- The theorems about launches at small inputs.
use de_framework.Exec.{ok}
use de_framework.Prelude.{pos, ◌≡◌, ◌∷◌, [], none, refl}
use de_framework.Text.{codes}
use de_framework.Launcher.Directory.{encode_model_directory, encode_model_directory_inj}
use de_framework.Launcher.Config.{LaunchConfig}

abbrev config : LaunchConfig
config = record {
  dataset = codes "aobench";
  experiment = codes "oracle-execution";
  compute_multiplier_k = 8;
  model = codes "claude-X/1";
  seeds = pos 0 ∷ pos 1 ∷ [];
  max_concurrency = pos 2;
  problems = none;
}

encodes_x : encode_model_directory (codes "m/X") ≡ ok (codes "m%2F%58")
unfolding encode_model_directory
encodes_x = refl

encode_model_directory_inj_example : codes "m/X" ≡ codes "m/X"
unfolding encode_model_directory
encode_model_directory_inj_example =
    encode_model_directory_inj (codes "m/X") (codes "m/X") (codes "m%2F%58") refl refl
