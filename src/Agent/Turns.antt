-- ===== src/Agent/Turns.antt =====
-- How many turns the agent takes: pkg/agent/loop.go.
use evidra_bench.Base.{
  String, ℕ, zero, suc, ◌+◌, ◌≤◌, false, List, [], ◌∷◌, ◌++◌, ◌≡◌, refl, subst, arith, Result, ok,
  err, count_of, count_of-append, length, length-append, inl, inr, Bool-cases,
}
use evidra_bench.Agent.Messages.{ToolCall, Message, ChatResponse, is_done, is_assistant}
use evidra_bench.Agent.Loop.{
  Peers, LoopConfig, LoopState, LoopResult, Progress, chat_failed, answered, ongoing,
  assistant_message, tool_message, tool_results, heard, served, on_response, take_turn, loop_result,
  follow, run_turns, turn_limit, initial_loop, run_loop,
}

-- The answers in a list of messages.
abbrev pub answers : List Message → ℕ
answers ms = count_of is_assistant ms

-- No injected message is an assistant's.
unfoldable pub IsQuiet : Peers → Type 0
IsQuiet p = (turn : ℕ) → answers (p.injected turn) ≡ 0

tool_results-quiet :
    (p : Peers) (turn : ℕ) (history : List Message) (calls : List ToolCall)
    → answers (tool_results p turn history calls) ≡ 0
unfolding count_of tool_results tool_message is_assistant
tool_results-quiet p turn history [] = refl
tool_results-quiet p turn history (tc ∷ rest) =
    let m = tool_message (p.execute turn history tc) tc in
    ground (arith, tool_results-quiet p turn (history ++ (m ∷ [])) rest)

-- The state after `n` turns.
pub record IsTurn (n : ℕ) (s : LoopState) : Type 0 where
  pub answered_times : answers s.messages ≡ n
  pub longer : n + 2 ≤ length s.messages

answer_counts : (r : ChatResponse) → answers (assistant_message r ∷ []) ≡ 1
unfolding count_of is_assistant assistant_message
answer_counts r = refl

one_message : (m : Message) → length (m ∷ []) ≡ 1
unfolding length
one_message m = refl

heard-IsTurn : (n : ℕ) (r : ChatResponse) (s : LoopState) → IsTurn n s → IsTurn (n + 1) (heard r s)
unfolding heard
heard-IsTurn n r s t =
    let m = assistant_message r in
    record {
      answered_times = omega (
        arith,
        t.answered_times,
        count_of-append is_assistant s.messages (m ∷ []),
        answer_counts r,
      );
      longer = omega (arith, t.longer, length-append s.messages (m ∷ []), one_message m);
    }

served-IsTurn :
    (p : Peers) (n turn : ℕ) (r : ChatResponse) (s : LoopState)
    → IsQuiet p
    → IsTurn n s
    → IsTurn n (served p turn r s)
unfolding served IsQuiet
served-IsTurn p n turn r s quiet t =
    let results = tool_results p turn s.messages r.tool_calls in
    let added = results ++ p.injected turn in
    record {
      answered_times = omega (
        arith,
        t.answered_times,
        count_of-append is_assistant s.messages added,
        count_of-append is_assistant results (p.injected turn),
        tool_results-quiet p turn s.messages r.tool_calls,
        quiet turn,
      );
      longer = omega (arith, t.longer, length-append s.messages added);
    }

-- What a turn leaves.
pub IsProgress : ℕ → Progress → Type 0
IsProgress n (chat_failed e) = Unit
IsProgress n (answered s output) = IsTurn (n + 1) s
IsProgress n (ongoing s) = IsTurn (n + 1) s

on_response-IsProgress :
    (p : Peers) (n turn : ℕ) (s : LoopState) (o : Result String ChatResponse)
    → IsQuiet p
    → IsTurn n s
    → IsProgress n (on_response p turn s o)
unfolding on_response IsProgress
on_response-IsProgress p n turn s (err e) quiet t = tt
on_response-IsProgress p n turn s (ok r) quiet t =
    let next = heard-IsTurn n r s t in
    elim (Bool-cases (is_done r)) [
      | inl last ↦ simp last next
      | inr more ↦ simp more (served-IsTurn p (n + 1) turn r (heard r s) quiet next)
    ]

-- The result of a loop of at most `limit` turns.
pub record IsBounded (limit : ℕ) (r : LoopResult) : Type 0 where
  pub bounded : answers r.messages ≤ limit
  pub exhausted : r.completed ≡ false → answers r.messages ≡ limit
  pub reported : r.turns ≡ length r.messages
  pub overstated : answers r.messages + 2 ≤ r.turns

IsOutcome : ℕ → Result String LoopResult → Type 0
IsOutcome limit (err e) = Unit
IsOutcome limit (ok r) = IsBounded limit r

follow-IsOutcome :
    (limit n left : ℕ) (next : LoopState → Result String LoopResult) (o : Progress)
    → n + 1 + left ≡ limit
    → ((s : LoopState) → IsTurn (n + 1) s → IsOutcome limit (next s))
    → IsProgress n o
    → IsOutcome limit (follow next o)
unfolding follow IsOutcome IsProgress loop_result
follow-IsOutcome limit n left next (chat_failed e) sum on t = tt
follow-IsOutcome limit n left next (answered s output) sum on t = record {
  bounded = omega (arith, t.answered_times, sum);
  exhausted = λ h. cc h;
  reported = refl;
  overstated = omega (arith, t.answered_times, t.longer);
}
follow-IsOutcome limit n left next (ongoing s) sum on t = on s t

run_turns-IsOutcome :
    (left : ℕ) (p : Peers) (limit n : ℕ) (s : LoopState)
    → n + left ≡ limit
    → IsQuiet p
    → IsTurn n s
    → IsOutcome limit (run_turns left p n s)
unfolding run_turns IsOutcome loop_result take_turn
run_turns-IsOutcome zero p limit n s sum quiet t = record {
  bounded = omega (arith, t.answered_times, sum);
  exhausted = λ h. omega (arith, t.answered_times, sum);
  reported = refl;
  overstated = omega (arith, t.answered_times, t.longer);
}
run_turns-IsOutcome (suc left) p limit n s sum quiet t =
    follow-IsOutcome limit n left (run_turns left p (n + 1)) (take_turn p n s) (omega (arith, sum))
      (λ next after. run_turns-IsOutcome left p limit (n + 1) next (omega (arith, sum)) quiet after)
      (on_response-IsProgress p n n s _ quiet t)

initial_loop-IsTurn : (cfg : LoopConfig) → IsTurn 0 (initial_loop cfg)
unfolding initial_loop count_of is_assistant length
initial_loop-IsTurn cfg = record { answered_times = refl; longer = omega arith }

IsOutcome-IsBounded :
    (limit : ℕ) (o : Result String LoopResult) (r : LoopResult)
    → o ≡ ok r
    → IsOutcome limit o
    → IsBounded limit r
unfolding IsOutcome
IsOutcome-IsBounded limit o r e h = subst (IsOutcome limit) e h

-- If no injected message is an assistant's, a loop that returns a result has the model answer at most as
-- many times as the limit of turns allows, exactly as many if it did not complete; and the number
-- of turns that it reports is that of all messages, at least two more than the answers.
pub run_loop-IsBounded :
    (p : Peers) (cfg : LoopConfig) (r : LoopResult)
    → IsQuiet p
    → run_loop p cfg ≡ ok r
    → IsBounded (turn_limit cfg.max_turns) r
unfolding run_loop
run_loop-IsBounded p cfg r quiet h = IsOutcome-IsBounded (turn_limit cfg.max_turns) _ r h (
    run_turns-IsOutcome (turn_limit cfg.max_turns) p (turn_limit cfg.max_turns) 0 (initial_loop cfg)
      (omega arith) quiet (initial_loop-IsTurn cfg))
