-- ===== src/Session/Usage/Ledger.antt =====
-- The operations of `TokenUsage`. A dictionary from message identities to counts keeps insertion
-- order; the set of completed identities is a list read by membership.
use de_framework.Exec.{Exec, Result, ok, err, value_error, ◌>>=◌, lift, modify}
use de_framework.Prelude.{
  List, ℕ, ℤ, Bool, [], map, ◌+◌, ◌∷◌, any, if◌then◌else◌, pos, ◌==◌, negsuc, max, ◌++◌,
}

abbrev pub MessageId : Type 0
MessageId = ℕ

abbrev pub Counts : Type 0
Counts = List (MessageId × ℕ)

-- d.get(k, 0)
unfoldable pub get_count : MessageId → Counts → ℕ
get_count k [] = 0
get_count k ((j, n) ∷ d) = if j == k then n else get_count k d

-- d[k] = n
unfoldable pub put_count : MessageId → ℕ → Counts → Counts
put_count k n [] = (k, n) ∷ []
put_count k n ((j, m) ∷ d) = if j == k then (j, n) ∷ d else (j, m) ∷ put_count k n d

-- sum(d.values())
unfoldable pub sum_counts : Counts → ℕ
sum_counts [] = 0
sum_counts ((j, n) ∷ d) = n + sum_counts d

abbrev pub ids : Counts → List MessageId
ids = map (λ e. e.0)

abbrev pub is_in : MessageId → List MessageId → Bool
is_in k = any (λ j. j == k)

-- The set of completed identities belongs to the session and outlives the ledger.
pub record TokenUsage : Type 0 where
  pub completed_ids : List MessageId
  pub message_tokens : Counts
  pub completed_tokens : ℕ

unfoldable pub new_usage : List MessageId → TokenUsage
new_usage done = record { completed_ids = done; message_tokens = []; completed_tokens = 0 }

unfoldable pub turn_output_tokens : TokenUsage → ℕ
unfolding sum_counts
turn_output_tokens u = sum_counts u.message_tokens

unfoldable pub output_tokens : TokenUsage → ℕ
unfolding turn_output_tokens
output_tokens u = u.completed_tokens + turn_output_tokens u

unfoldable pub message_output_tokens : MessageId → TokenUsage → ℕ
unfolding get_count
message_output_tokens k u = get_count k u.message_tokens

unfoldable pub validate_token_count : ℤ → Result ℕ
validate_token_count (pos n) = ok n
validate_token_count (negsuc n) = err value_error

unfoldable pub update_message_tokens : MessageId → ℤ → Exec TokenUsage (Unit {0})
unfolding validate_token_count get_count put_count
update_message_tokens k count = do
  n ← lift (validate_token_count count)
  modify (λ u. if is_in k u.completed_ids then u else record u {
    message_tokens = put_count k (max (get_count k u.message_tokens) n) u.message_tokens;
  })

unfoldable pub finalize_turn_usage : ℤ → Exec TokenUsage (Unit {0})
unfolding validate_token_count turn_output_tokens
finalize_turn_usage count = do
  n ← lift (validate_token_count count)
  modify (λ u. record {
    completed_tokens = u.completed_tokens + max (turn_output_tokens u) n;
    completed_ids = u.completed_ids ++ ids u.message_tokens;
    message_tokens = [];
  })
