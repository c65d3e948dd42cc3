-- ===== src/Slack/Tests.antt =====
-- One message to a hook that is busy at first.
use irc_eew.Base.{
  ℕ, suc, zero, ◌≡◌, ◌≤◌, ◌<◌, refl, Bool, false, none, [], ◌∷◌, length, All, Option,
}
use irc_eew.Base.Bytes.{Bytes, codes}
use irc_eew.Base.Decimal.{atoi}
use irc_eew.Base.Int.{ℤ, pos, is_positive, int64}
use irc_eew.Slack.Retries.{IsShort, AllAnswer, Ends, send-Ends}
use irc_eew.Slack.{Reply, answered, parse_retry_after, send_once, pass, send}

abbrev no_date : Bytes → Option ℤ
no_date v = none

-- Two answers of 429, and then an accepted request.
abbrev busy : ℕ → Reply
busy (suc zero) = answered 429 (codes "2")
busy (suc (suc zero)) = answered 503 []
busy n = answered 200 []

abbrev never : ℕ → Bool
never n = false

send-Ends_example :
    (length (send no_date busy never).results ≤ 3)
    × (length (send no_date busy never).waits < 3)
    × All IsShort (send no_date busy never).waits
    × AllAnswer no_date busy never 1 (send no_date busy never).results
    × Ends (send no_date busy never).results (send no_date busy never).ending
send-Ends_example = send-Ends no_date busy never

busy_waits : (send no_date busy never).waits ≡ pos 2000000000 ∷ pos 2000000000 ∷ []
unfolding send pass send_once parse_retry_after atoi int64
busy_waits = refl

-- More than 2 ^ 63 nanoseconds wrap to a negative duration.
long_wait_wraps : is_positive (parse_retry_after no_date (codes "9223372037")) ≡ false
unfolding parse_retry_after atoi int64
long_wait_wraps = refl
