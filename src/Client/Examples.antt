-- ===== src/Client/Examples.antt =====
-- The retries at a server that fails twice.
use monitor_agent.Base.{ℕ, ◌*◌, zero, suc, ◌≡◌, refl, arith, some, [], ◌∷◌, Text, lit}
use monitor_agent.Base.Int.{pos}
use monitor_agent.Client.{
  RetryConfig, Outcome, ok, fail, do_request, post, rounds, attempts_of, interval_of,
  max_interval_of, next_interval, second,
}
use monitor_agent.Client.Retry.{Tried, post-Tried}

abbrev third_time : ℕ → Outcome Text
third_time zero = fail do_request
third_time (suc zero) = fail do_request
third_time (suc (suc n)) = ok (some (lit "saved"))

abbrev four_attempts : RetryConfig
four_attempts = record {
  max_attempts = pos 4;
  initial_interval = pos second;
  max_interval = pos (30 * second);
}

post-Tried_example :
    Tried third_time 0
      (attempts_of four_attempts)
      (interval_of four_attempts)
      (max_interval_of four_attempts)
      (post third_time four_attempts)
post-Tried_example =
    post-Tried third_time four_attempts (unfold interval_of max_interval_of in omega arith)

post_sleeps : (post third_time four_attempts).sleeps ≡ second ∷ 2 * second ∷ []
unfolding post rounds attempts_of interval_of max_interval_of next_interval
post_sleeps = refl
