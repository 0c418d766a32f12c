-- ===== src/Sandbox/Tests.antt =====
-- The theorems about the sandbox on a small host, whose state is the list of its containers.
use de_framework.Sandbox.Cleanup.{IsGone, IsStuck, execute_container-Gone}
use de_framework.Exec.{Outcome, Result, err, value_error, ok}
use de_framework.Sandbox.{
  start, Command, execute_container, create_container, End, create_result, remove, list, done,
  start_container, create, exits, start_result, clean_up, missing_container, remove_container,
  remove_result,
}
use de_framework.Text.{Text, codes, in_texts, is_blank, is_space, text_eq}
use de_framework.Prelude.{
  ℕ, List, Bool, ◌∷◌, if◌then◌else◌, ◌≡◌, ◌⊎◌, false, [], arith, if_elim, refl, none,
}

abbrev without : Text → List Text → List Text
without name [] = []
without name (c ∷ cs) = if text_eq c name then without name cs else c ∷ without name cs

abbrev small_docker : Command → List Text → End × List Text
small_docker (list directory) cs = (done [], cs)
small_docker (create directory name) cs = (done (codes "id"), name ∷ cs)
small_docker (start name request) cs = (done [], cs)
small_docker (remove name) cs =
    if in_texts name cs then (done [], without name cs) else (exits 1 (missing_container name), cs)

abbrev no_float : Text → Result ℕ
no_float t = err value_error

without_name : (name : Text) (cs : List Text) → in_texts name (without name cs) ≡ false
without_name name [] = refl
without_name name (c ∷ cs) = ground (arith, without_name name cs)

abbrev is_there : Text → List Text → Bool
is_there = in_texts

remove_removes :
    (name : Text) (cs : List Text) → is_there name (small_docker (remove name) cs).1 ≡ false
remove_removes name cs =
    if_elim {A = End × List Text} (λ p. is_there name p.1 ≡ false) (in_texts name cs)
      (done [], without name cs) (exits 1 (missing_container name), cs) (λ _. without_name name cs)
      (λ e. e)

execute_container-Gone_example :
    Outcome
      (λ _ v.
        IsGone small_docker no_float is_there
          (λ n w _ _. remove_removes n w)
          (λ n w _ _ _ _. remove_removes n w)
          (codes "harness-1")
          v)
      (λ v.
        IsGone small_docker no_float is_there
          (λ n w _ _. remove_removes n w)
          (λ n w _ _ _ _. remove_removes n w)
          (codes "harness-1")
          v
        ⊎ IsStuck small_docker no_float is_there
            (λ n w _ _. remove_removes n w)
            (λ n w _ _ _ _. remove_removes n w)
            (codes "harness-1")
            v)
      (execute_container small_docker no_float (codes "d") (codes "r") (codes "harness-1") [])
execute_container-Gone_example =
    execute_container-Gone small_docker no_float is_there (λ n w _ _. remove_removes n w)
      (λ n w _ _ _ _. remove_removes n w) (codes "d") (codes "r") (codes "harness-1") []

leaves_no_container :
    execute_container small_docker no_float (codes "d") (codes "r") (codes "harness-1") []
    ≡ (ok (0, none), [])
unfolding execute_container create_container create_result is_blank is_space start_container
    start_result clean_up remove_container remove_result text_eq
leaves_no_container = refl
