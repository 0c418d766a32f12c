-- ===== src/Launcher/Dataset/Selection.antt =====
-- What a selection of launcher/dataset.py holds.
use de_framework.Text.{Text, text_eq}
use de_framework.Launcher.Dataset.{Problem}
use de_framework.Prelude.{List, Option, Bool, map, some, true, ◌≡◌, none}

abbrev pub is_from : Option Text → Problem → Bool
is_from none p = true
is_from (some domain) p = text_eq p.domain domain

abbrev pub ids_of : List Problem → List Text
ids_of = map (λ p. p.problem_id)

-- The order that was asked for, where one was.
abbrev pub Chosen : Option (List Text) → List Problem → Type 0
Chosen none ps = Unit
Chosen (some ids) ps = ids_of ps ≡ ids
