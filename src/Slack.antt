-- ===== src/Slack.antt =====
-- internal/slack/notifier.go: one message to one hook, with its retries. What the hook answers, and
-- whether the context is done during a wait, are functions of the number of the attempt.
-- Durations are nanoseconds in an `int64`.
pub mod Retries
mod Tests
use irc_eew.Base.{
  ℕ, zero, suc, ◌*◌, Bool, true, false, ◌||◌, Option, none, some, List, [], ◌∷◌, leb, ◌==◌,
  if◌then◌else◌,
}
use irc_eew.Base.Bytes.{Bytes}
use irc_eew.Base.Decimal.{atoi}
use irc_eew.Base.Int.{ℤ, pos, is_positive, at_least, int64, times}

-- `time.Second`
abbrev pub second : ℕ
second = 1000000000

abbrev pub max_attempts : ℕ
max_attempts = 3

abbrev pub default_retry_wait : ℕ
default_retry_wait = 1 * second

abbrev pub max_retry_wait : ℕ
max_retry_wait = 10 * second

-- What comes of one request.
pub data Reply : Type 0 where
  -- `http.NewRequestWithContext` fails
  unbuilt : Reply
  -- `Do` fails
  unanswered : Reply
  -- a status code and the header `Retry-After`
  answered : ℕ → Bytes → Reply

-- What `sendOnce` returns: no error, a `retryableError`, another error.
pub data Result : Type 0 where
  posted : Result
  retryable : ℤ → Result
  refused : Result

-- A wait that has run out is none.
abbrev if_positive : Option ℤ → ℤ
if_positive none = pos 0
if_positive (some d) = if is_positive d then d else pos 0

-- `parseRetryAfter`; `until` is the time until the date that `http.ParseTime` reads.
unfoldable pub parse_retry_after : (Bytes → Option ℤ) → Bytes → ℤ
parse_retry_after until [] = pos 0
parse_retry_after until (c ∷ v) = elim (atoi (c ∷ v)) [
  | some secs ↦ int64 (times secs second)
  | none ↦ if_positive (until (c ∷ v))
]

unfoldable pub send_once : (Bytes → Option ℤ) → Reply → Result
unfolding parse_retry_after
send_once until unbuilt = refused
send_once until unanswered = refused
send_once until (answered status retry_after) =
    if status == 429 || leb 500 status
    then retryable (parse_retry_after until retry_after)
    else if leb 300 status
    then refused
    else posted

-- The wait behind an attempt.
pub retry_wait : ℕ → ℤ → ℤ
retry_wait attempt retry_after =
    let wait =
      if is_positive retry_after then retry_after else pos (default_retry_wait * attempt) in
    if at_least (suc max_retry_wait) wait then pos max_retry_wait else wait

-- How `Send` returns: nil, the last error, or giving up in a wait.
pub data Ending : Type 0 where
  delivered failed : Ending
  gave_up : ℕ → Ending

-- The requests that `Send` made, the waits that it began, and its end.
pub record Sent : Type 0 where
  pub results : List Result
  pub waits : List ℤ
  pub ending : Ending

-- One pass of the loop; `later` is what the loop does from the next attempt on.
pub pass : Bool → ℕ → Result → Sent → Sent
unfolding retry_wait
pass done attempt posted later = record { results = posted ∷ []; waits = []; ending = delivered }
pass done attempt refused later = record { results = refused ∷ []; waits = []; ending = failed }
pass done attempt (retryable after) later =
    if attempt == max_attempts
    then record { results = retryable after ∷ []; waits = []; ending = failed }
    else if done
    then record {
      results = retryable after ∷ [];
      waits = retry_wait attempt after ∷ [];
      ending = gave_up attempt;
    }
    else record {
      results = retryable after ∷ later.results;
      waits = retry_wait attempt after ∷ later.waits;
      ending = later.ending;
    }

module _ (until : Bytes → Option ℤ) (reply : ℕ → Reply) (done : ℕ → Bool) where
  -- The loop, with the number of attempts that are left.
  pub attempts : ℕ → ℕ → Sent
  unfolding pass
  attempts zero attempt = record { results = []; waits = []; ending = failed }
  attempts (suc left) attempt =
      pass (done attempt) attempt (send_once until (reply attempt)) (attempts left (suc attempt))

  -- `Send`
  unfoldable pub send : Sent
  unfolding attempts
  send = attempts max_attempts 1
