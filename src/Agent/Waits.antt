-- ===== src/Agent/Waits.antt =====
-- The waits and the requests of a chat with retries, of pkg/agent/retry.go and openai_compatible.go of the
-- same folder.
use evidra_bench.Base.{
  String, ℕ, zero, suc, ◌+◌, ◌-◌, ◌≤◌, ◌<◌, ltb, ℤ, pos, negsuc, is_positive, Bool, true, false,
  Option, none, some, Result, ok, err, ◌≡◌, refl, ap, ◌∙◌, any, length, inl, inr, Bool-cases, arith,
  is_empty,
}
use evidra_bench.Agent.Retry.{
  RetryConfig, RetryClock, Response, ChatError, rate_limited, no_error, Transport, Chatted, exceeds,
  capped, dated, numbered, grown, backoff_duration, sleep_with_context, ended, resumed, on_reply,
  has_more, attempts, attempts_of, chat_with_retries, is_retryable,
}

exceeds_irrefl : (d : ℤ) → exceeds d d ≡ false
unfolding exceeds
exceeds_irrefl (pos n) = ground arith
exceeds_irrefl (negsuc n) = ground arith

exceeds-capped : (limit d : ℤ) → exceeds (capped limit d) limit ≡ false
unfolding capped
exceeds-capped limit d = elim (Bool-cases (exceeds d limit)) [
  | inl over ↦ simp over (exceeds_irrefl limit)
  | inr under ↦ simp under refl
]

exceeds-dated :
    (left : Option ℤ) (limit other : ℤ)
    → exceeds other limit ≡ false
    → exceeds (dated left limit other) limit ≡ false
unfolding dated
exceeds-dated none limit other h = h
exceeds-dated (some d) limit other h = elim (Bool-cases (is_positive d)) [
  | inl ahead ↦ simp ahead (exceeds-capped limit d)
  | inr past ↦ simp past h
]

exceeds-numbered :
    (number : Option (Bool × ℤ)) (limit other : ℤ)
    → exceeds other limit ≡ false
    → exceeds (numbered number limit other) limit ≡ false
unfolding numbered
exceeds-numbered none limit other h = h
exceeds-numbered (some (true, d)) limit other h = exceeds-capped limit d
exceeds-numbered (some (false, d)) limit other h = h

-- Whatever the header says, the wait does not exceed the limit.
exceeds-backoff_duration :
    (clock : RetryClock) (cfg : RetryConfig) (attempt : ℕ) (header : String)
    → exceeds (backoff_duration clock cfg attempt header) cfg.max_backoff ≡ false
unfolding backoff_duration
exceeds-backoff_duration clock cfg attempt header =
    let limit = cfg.max_backoff in
    let other = capped limit (grown clock.times attempt cfg.initial_backoff) in
    let capped_other : exceeds other limit ≡ false = exceeds-capped limit _ in
    elim (Bool-cases (is_empty header)) [
      | inl absent ↦ simp absent capped_other
      | inr present ↦ simp present (
          exceeds-numbered (clock.seconds header) limit _
            (exceeds-dated (clock.until header) limit other capped_other))
    ]

-- What holds of a chat of at most `n` attempts.
pub record IsLimited {ℓ} {A : Type ℓ} (limit : ℤ) (n : ℕ) (c : Chatted A) : Type 0 where
  requested : c.requests ≤ n
  waited : length c.waits ≤ n - 1
  capped_waits : any (λ w. exceeds w limit) c.waits ≡ false

module _ {ℓ} {A : Type ℓ} (limit : ℤ) where
  ended-IsLimited : (n : ℕ) (reply : Result ChatError A) → IsLimited limit (suc n) (ended reply)
  unfolding ended any
  ended-IsLimited n reply = record {
    requested = omega arith;
    waited = omega arith;
    capped_waits = refl;
  }

  resumed-IsLimited :
      (n : ℕ) (cut : Option String) (wait : ℤ) (rest : Chatted A)
      → exceeds wait limit ≡ false
      → IsLimited limit (suc n) rest
      → IsLimited limit (suc (suc n)) (resumed cut wait rest)
  unfolding resumed any
  resumed-IsLimited n (some e) wait rest h r = record {
    requested = omega arith;
    waited = omega arith;
    capped_waits = simp h refl;
  }
  resumed-IsLimited n none wait rest h r = record {
    requested = omega (arith, r.requested);
    waited = omega (arith, r.waited);
    capped_waits = simp h r.capped_waits;
  }

module _ {ℓ} {A : Type ℓ} (clock : RetryClock) (cfg : RetryConfig) (t : Transport A) where
  on_reply-IsLimited :
      (left attempt : ℕ) (next : ChatError → Chatted A) (answer : Result String Response)
      → ((e : ChatError) → IsLimited cfg.max_backoff left (next e))
      → IsLimited cfg.max_backoff (suc left) (on_reply clock cfg t left attempt next answer)
  unfolding on_reply has_more
  on_reply-IsLimited zero attempt next (err e) h = record {
    requested = omega (arith, (h _).requested);
    waited = omega (arith, (h _).waited);
    capped_waits = (h _).capped_waits;
  }
  on_reply-IsLimited (suc n) attempt next (err e) h =
      resumed-IsLimited cfg.max_backoff n _ _ _ (exceeds-backoff_duration clock cfg attempt "")
        (h _)
  on_reply-IsLimited zero attempt next (ok r) h = elim (Bool-cases (ltb r.status_code 400)) [
    | inl good ↦ simp good (ended-IsLimited cfg.max_backoff 0 (t.parse r.body))
    | inr bad ↦ elim (Bool-cases (is_retryable r.status_code)) [
      | inl again ↦ simp (bad, again) (ended-IsLimited cfg.max_backoff 0 _)
      | inr never ↦ simp (bad, never) (ended-IsLimited cfg.max_backoff 0 _)
    ]
  ]
  on_reply-IsLimited (suc n) attempt next (ok r) h = elim (Bool-cases (ltb r.status_code 400)) [
    | inl good ↦ simp good (ended-IsLimited cfg.max_backoff (suc n) (t.parse r.body))
    | inr bad ↦ elim (Bool-cases (is_retryable r.status_code)) [
      | inl again ↦
          simp (bad, again)
            (resumed-IsLimited cfg.max_backoff n
              (sleep_with_context (t.cancelled attempt)
                (backoff_duration clock cfg attempt r.retry_after))
              (backoff_duration clock cfg attempt r.retry_after)
              (next (
                rate_limited r.status_code r.body
                  (backoff_duration clock cfg attempt r.retry_after)))
              (exceeds-backoff_duration clock cfg attempt r.retry_after) (h _))
      | inr never ↦ simp (bad, never) (ended-IsLimited cfg.max_backoff (suc n) _)
    ]
  ]

  attempts-IsLimited :
      (n attempt : ℕ) (last : ChatError)
      → IsLimited cfg.max_backoff n (attempts clock cfg t n attempt last)
  unfolding attempts any
  attempts-IsLimited zero attempt last = record {
    requested = omega arith;
    waited = omega arith;
    capped_waits = refl;
  }
  attempts-IsLimited (suc n) attempt last =
      on_reply-IsLimited n attempt _ _ (attempts-IsLimited n (attempt + 1))

  -- A chat sends at most one request for every attempt from 0 to the retries of its configuration, it waits
  -- less often than that, and no wait exceeds the configured limit, whatever the server asks for.
  pub chat_with_retries-IsLimited :
      IsLimited cfg.max_backoff (attempts_of cfg.max_retries) (chat_with_retries clock cfg t)
  unfolding chat_with_retries
  chat_with_retries-IsLimited = attempts-IsLimited _ 0 _

  -- The attempt, of the ones that the loop makes, is refused for now, and nothing interrupts the wait.
  pub record IsDeferred (attempt : ℕ) : Type 0 where
    pub answer : Response
    pub heard : t.do_request attempt ≡ ok answer
    pub refused : ltb answer.status_code 400 ≡ false
    pub retryable : is_retryable answer.status_code ≡ true
    pub uninterrupted : t.cancelled attempt ≡ none

  sleep-uninterrupted :
      (attempt : ℕ) (d : ℤ)
      → t.cancelled attempt ≡ none
      → sleep_with_context (t.cancelled attempt) d ≡ none
  unfolding sleep_with_context
  sleep-uninterrupted attempt d h = elim (Bool-cases (is_positive d)) [
    | inl waits ↦ simp waits h
    | inr goes_on ↦ simp goes_on refl
  ]

  on_reply-deferred :
      (left attempt : ℕ) (next : ChatError → Chatted A) (d : IsDeferred attempt)
      → (on_reply clock cfg t (suc left) attempt next (t.do_request attempt)).reply
        ≡ (next (
            rate_limited d.answer.status_code d.answer.body
              (backoff_duration clock cfg attempt d.answer.retry_after))).reply
  unfolding on_reply has_more resumed
  on_reply-deferred left attempt next d =
      let goes_on =
        sleep-uninterrupted attempt (backoff_duration clock cfg attempt d.answer.retry_after)
          d.uninterrupted in
      simp (d.heard, d.refused, d.retryable, goes_on) refl

  attempts-recovered :
      (k left attempt served_at : ℕ) (last : ChatError) (r : Response)
      → served_at ≡ attempt + k
      → k ≤ left
      → ((i : ℕ) → attempt ≤ i → i < served_at → IsDeferred i)
      → t.do_request served_at ≡ ok r
      → ltb r.status_code 400 ≡ true
      → (attempts clock cfg t (suc left) attempt last).reply ≡ t.parse r.body
  unfolding attempts on_reply ended
  attempts-recovered zero left attempt served_at last r at within deferred served fine =
      let now : attempt ≡ served_at = omega (arith, at) in
      let here : t.do_request attempt ≡ ok r = ap t.do_request now ∙ served in
      simp (here, fine) refl
  attempts-recovered (suc k) zero attempt served_at last r at within deferred served fine =
      ground (arith, within)
  attempts-recovered (suc k) (suc left) attempt served_at last r at within deferred served fine =
      let d = deferred attempt (omega arith) (omega (arith, at)) in
      let wait = backoff_duration clock cfg attempt d.answer.retry_after in
      let rest =
        attempts-recovered k left (attempt + 1) served_at
          (rate_limited d.answer.status_code d.answer.body wait) r (omega (arith, at))
          (omega (arith, within)) (λ i after before. deferred i (omega (arith, after)) before)
          served fine in
      on_reply-deferred left attempt (attempts clock cfg t (suc left) (attempt + 1)) d ∙ rest

  -- A chat whose first requests are each answered with a retryable status, and whose waits nothing interrupts,
  -- returns the reply of the next request if that one is served and the retries reach so far.
  pub chat_with_retries-recovered :
      (retries k : ℕ) (r : Response)
      → cfg.max_retries ≡ pos retries
      → k ≤ retries
      → ((i : ℕ) → i < k → IsDeferred i)
      → t.do_request k ≡ ok r
      → ltb r.status_code 400 ≡ true
      → (chat_with_retries clock cfg t).reply ≡ t.parse r.body
  unfolding chat_with_retries attempts_of
  chat_with_retries-recovered retries k r configured within deferred served fine =
      let recovered =
        attempts-recovered k retries 0 k no_error r (omega arith) within
          (λ i after before. deferred i before) served fine in
      let count : attempts_of cfg.max_retries ≡ suc retries = ap attempts_of configured in
      ap (λ n. (attempts clock cfg t n 0 no_error).reply) count ∙ recovered
