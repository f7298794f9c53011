-- ===== src/Agent/Retry.antt =====
-- The retries of a chat request: pkg/agent/retry.go, and the loop of `Chat` in openai_compatible.go of the
-- same folder. A duration counts nanoseconds. The number or the date that a Retry-After header holds, the
-- multiplication of floats, the transport and the context are arguments; an error is a value, without its
-- text, and the logs are left out.
use evidra_bench.Base.{
  String, ℕ, zero, suc, ◌+◌, ltb, eqb, ◌||◌, ℤ, pos, negsuc, is_positive, Bool, true, false, List,
  [], ◌∷◌, Option, none, some, Result, ok, err, is_empty, if◌then◌else◌,
}

pub record RetryConfig : Type 0 where
  pub max_retries : ℤ
  pub initial_backoff : ℤ
  pub max_backoff : ℤ

-- `seconds` tells of a text that is a number whether it is positive, and the duration that it makes;
-- `until` is the time that is left to a date; `times` multiplies a duration by the multiplier.
pub record RetryClock : Type 0 where
  pub seconds : String → Option (Bool × ℤ)
  pub until : String → Option ℤ
  pub times : ℤ → ℤ

pub record Response : Type 0 where
  pub status_code : ℕ
  pub retry_after : String
  pub body : String

unfoldable pub is_retryable : ℕ → Bool
is_retryable code = eqb code 429 || eqb code 500 || eqb code 502 || eqb code 503 || eqb code 504

-- The first is greater than the second.
unfoldable pub exceeds : ℤ → ℤ → Bool
exceeds (pos a) (pos b) = ltb b a
exceeds (pos a) (negsuc b) = true
exceeds (negsuc a) (pos b) = false
exceeds (negsuc a) (negsuc b) = ltb a b

unfoldable pub capped : ℤ → ℤ → ℤ
capped limit d = if exceeds d limit then limit else d

unfoldable pub grown : (ℤ → ℤ) → ℕ → ℤ → ℤ
grown times zero backoff = backoff
grown times (suc n) backoff = grown times n (times backoff)

-- The wait that a date asks for, or else another one.
unfoldable pub dated : Option ℤ → ℤ → ℤ → ℤ
dated none limit other = other
dated (some d) limit other = if is_positive d then capped limit d else other

-- The wait that a number asks for, or else another one.
unfoldable pub numbered : Option (Bool × ℤ) → ℤ → ℤ → ℤ
numbered (some (true, d)) limit other = capped limit d
numbered (some (false, d)) limit other = other
numbered none limit other = other

unfoldable pub backoff_duration : RetryClock → RetryConfig → ℕ → String → ℤ
backoff_duration clock cfg attempt header =
    let limit = cfg.max_backoff in
    let exponential = capped limit (grown clock.times attempt cfg.initial_backoff) in
    if is_empty header
    then exponential
    else numbered (clock.seconds header) limit (dated (clock.until header) limit exponential)

-- What the context answers to a wait: nothing is asked of it where there is nothing to wait for.
unfoldable pub sleep_with_context : Option String → ℤ → Option String
sleep_with_context cancelled d = if is_positive d then cancelled else none

pub data ChatError : Type 0 where
  no_error : ChatError
  request_failed : String → ChatError
  rate_limited : ℕ → String → ℤ → ChatError
  interrupted : String → ChatError
  bad_status : ℕ → String → ChatError
  unparsable : String → ChatError
  exhausted : ℤ → ChatError → ChatError

-- The transport and the context, at every attempt, and the parser of a reply.
pub record Transport {ℓ} (A : Type ℓ) : Type ℓ where
  pub do_request : ℕ → Result String Response
  pub cancelled : ℕ → Option String
  pub parse : String → Result ChatError A

-- What a chat did: the requests that it sent, the waits that it began, and its reply.
pub record Chatted {ℓ} (A : Type ℓ) : Type ℓ where
  pub requests : ℕ
  pub waits : List ℤ
  pub reply : Result ChatError A

unfoldable pub ended {ℓ} : {A : Type ℓ} → Result ChatError A → Chatted A
ended reply = record { requests = 1; waits = []; reply = reply }

unfoldable pub resumed {ℓ} : {A : Type ℓ} → Option String → ℤ → Chatted A → Chatted A
resumed (some e) wait rest = record { requests = 1; waits = wait ∷ []; reply = err (interrupted e) }
resumed none wait rest = record {
  requests = suc rest.requests;
  waits = wait ∷ rest.waits;
  reply = rest.reply;
}

-- The test `attempt < max_retries`, by the attempts that are left after this one.
unfoldable pub has_more : ℕ → Bool
has_more zero = false
has_more (suc n) = true

-- The attempts that are left after this one, and how the loop goes on after an error.
unfoldable pub on_reply {ℓ} :
    {A : Type ℓ}
    → RetryClock
    → RetryConfig
    → Transport A
    → ℕ
    → ℕ
    → (ChatError → Chatted A)
    → Result String Response
    → Chatted A
on_reply clock cfg t left attempt next (err e) =
    let rest = next (request_failed e) in
    let backoff = backoff_duration clock cfg attempt "" in
    if has_more left
    then resumed (sleep_with_context (t.cancelled attempt) backoff) backoff rest
    else record rest { requests = suc rest.requests }
on_reply clock cfg t left attempt next (ok r) =
    let backoff = backoff_duration clock cfg attempt r.retry_after in
    let rest = next (rate_limited r.status_code r.body backoff) in
    if ltb r.status_code 400
    then ended (t.parse r.body)
    else if is_retryable r.status_code
    then (if has_more left
        then resumed (sleep_with_context (t.cancelled attempt) backoff) backoff rest
        else ended (err (bad_status r.status_code r.body)))
    else ended (err (bad_status r.status_code r.body))

unfoldable pub attempts {ℓ} :
    {A : Type ℓ} → RetryClock → RetryConfig → Transport A → ℕ → ℕ → ChatError → Chatted A
attempts clock cfg t zero attempt last_err = record {
  requests = 0;
  waits = [];
  reply = err (exhausted cfg.max_retries last_err);
}
attempts clock cfg t (suc left) attempt last_err =
    on_reply clock cfg t left attempt (attempts clock cfg t left (attempt + 1))
      (t.do_request attempt)

-- How many attempts `attempt <= max_retries` lets through, from 0.
unfoldable pub attempts_of : ℤ → ℕ
attempts_of (pos n) = suc n
attempts_of (negsuc n) = 0

unfoldable pub chat_with_retries {ℓ} :
    {A : Type ℓ} → RetryClock → RetryConfig → Transport A → Chatted A
chat_with_retries clock cfg t = attempts clock cfg t (attempts_of cfg.max_retries) 0 no_error
