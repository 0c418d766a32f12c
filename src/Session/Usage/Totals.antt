-- ===== src/Session/Usage/Totals.antt =====
-- The totals of a ledger of harness/session/token_usage.py after an operation.
use de_framework.Session.Usage.Ledger.{
  output_tokens, sum_counts, finalize_turn_usage, put_count, update_message_tokens, TokenUsage,
  get_count, message_output_tokens, Counts, MessageId, is_in, turn_output_tokens, ids,
}
use de_framework.Exec.{ok, err, value_error, Result}
use de_framework.Prelude.{
  ℕ, pos, ℤ, ◌≡◌, ◌≤◌, ◌+◌, arith, if◌then◌else◌, max, ◌-◌, ◌||◌, negsuc, [], ◌∷◌, refl, any-append,
  ◌==◌,
}

sum-put_count :
    (k n : ℕ) (d : Counts)
    → get_count k d ≤ n
    → sum_counts (put_count k n d) + get_count k d ≡ sum_counts d + n
unfolding sum_counts put_count get_count
sum-put_count k n [] h = omega arith
sum-put_count k n ((j, m) ∷ d) h = ground (arith, sum-put_count k n d)

-- What a report of a message's usage does to the total.
abbrev pub Reported : TokenUsage → MessageId → ℤ → Result (Unit {0}) × TokenUsage → Type 0
Reported u k (pos n) r =
    (r.0 ≡ ok tt)
    × (output_tokens r.1
        ≡ output_tokens u + (if is_in k u.completed_ids then 0 else n - message_output_tokens k u))
Reported u k (negsuc n) r = (r.0 ≡ err value_error) × (r.1 ≡ u)

-- A report of a message's usage that is not negative is accepted and raises the total by its increase
-- over the reports before, and by nothing for a message of an earlier turn; a negative report raises
-- ValueError and changes nothing.
pub output_tokens-update :
    (u : TokenUsage) (k : MessageId) (count : ℤ)
    → Reported u k count (update_message_tokens k count u)
unfolding output_tokens update_message_tokens message_output_tokens
output_tokens-update u k (negsuc n) = (refl, refl)
output_tokens-update u k (pos n) =
    (refl, ground (arith, sum-put_count k (max (get_count k u.message_tokens) n) u.message_tokens))

-- Closing a turn with a report counts the larger of the report and of what was seen, starts the
-- next turn from nothing, and retires each message of the turn.
pub finalize_lem :
    (u : TokenUsage) (n : ℕ) (k : MessageId)
    → let v = (finalize_turn_usage (pos n) u).1 in
      (output_tokens v ≡ u.completed_tokens + max (turn_output_tokens u) n)
      × (output_tokens u ≤ output_tokens v)
      × (turn_output_tokens v ≡ 0)
      × (is_in k v.completed_ids ≡ (is_in k u.completed_ids || is_in k (ids u.message_tokens)))
unfolding output_tokens finalize_turn_usage
finalize_lem u n k = (
  omega arith,
  omega arith,
  refl,
  any-append (λ j. j == k) u.completed_ids (ids u.message_tokens),
)

pub update_grows :
    (u : TokenUsage) (k : MessageId) (count : ℤ)
    → output_tokens u ≤ output_tokens (update_message_tokens k count u).1
update_grows u k (pos n) = omega (arith, (output_tokens-update u k (pos n)).1)
update_grows u k (negsuc n) = rw (output_tokens-update u k (negsuc n)).1 (omega arith)

pub finalize_grows :
    (u : TokenUsage) (count : ℤ) → output_tokens u ≤ output_tokens (finalize_turn_usage count u).1
finalize_grows u (pos n) = (finalize_lem u n 0).1
finalize_grows u (negsuc n) = unfold finalize_turn_usage in omega arith
