-- ===== src/Agent/RetryTests.antt =====
-- The theorems on the retries of a chat, at a provider that is busy once.
use evidra_bench.Base.{
  String, ℕ, zero, suc, ◌<◌, pos, true, none, some, Result, ok, ◌≡◌, refl, arith,
}
use evidra_bench.Agent.Retry.{
  RetryConfig, RetryClock, Response, Transport, attempts_of, chat_with_retries, is_retryable,
}
use evidra_bench.Agent.Waits.{
  IsLimited, IsDeferred, chat_with_retries-IsLimited, chat_with_retries-recovered,
}

abbrev clock : RetryClock
clock = record { seconds = λ text. some (true, pos 90); until = λ text. none; times = λ d. d }

abbrev config : RetryConfig
config = record { max_retries = pos 1; initial_backoff = pos 2; max_backoff = pos 60 }

abbrev busy : Response
busy = record { status_code = 429; retry_after = "90"; body = "slow down" }

abbrev fine : Response
fine = record { status_code = 200; retry_after = ""; body = "done" }

answers : ℕ → Result String Response
answers zero = ok busy
answers (suc n) = ok fine

abbrev transport : Transport String
transport = record { do_request = answers; cancelled = λ attempt. none; parse = λ body. ok body }

busy-IsDeferred : (i : ℕ) → i < 1 → IsDeferred clock config transport i
unfolding answers is_retryable
busy-IsDeferred zero h = record {
  answer = busy;
  heard = refl;
  refused = refl;
  retryable = refl;
  uninterrupted = refl;
}
busy-IsDeferred (suc i) h = ground (arith, h)

then_served : answers 1 ≡ ok fine
unfolding answers
then_served = refl

chat_with_retries-IsLimited_example :
    IsLimited (pos 60) (attempts_of (pos 1)) (chat_with_retries clock config transport)
chat_with_retries-IsLimited_example = chat_with_retries-IsLimited clock config transport

chat_with_retries-recovered_example : (chat_with_retries clock config transport).reply ≡ ok "done"
chat_with_retries-recovered_example =
    chat_with_retries-recovered clock config transport 1 1 fine refl (omega arith) busy-IsDeferred
      then_served refl
