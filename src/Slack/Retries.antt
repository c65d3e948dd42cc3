-- ===== src/Slack/Retries.antt =====
-- What `Send` may do: how often it asks, how long it waits, and how it ends.
use irc_eew.Base.{
  ℕ, zero, suc, ◌+◌, ◌*◌, ◌≤◌, ◌<◌, ◌≡◌, ◌≢◌, refl, ◌⊎◌, ◌||◌, leb, Bool, true, false, Option, List,
  [], ◌∷◌, arith, length, All, ◌==◌, if◌then◌else◌, Bool-cases, inl, inr,
}
use irc_eew.Base.Bytes.{Bytes}
use irc_eew.Base.Int.{ℤ, pos, negsuc, is_positive, at_least}
use irc_eew.Slack.{
  second, max_attempts, max_retry_wait, default_retry_wait, Reply, unbuilt, unanswered, answered,
  Result, posted, retryable, refused, retry_wait, Ending, delivered, failed, gave_up, Sent, pass,
  attempts, send, send_once,
}

-- A wait of at least a nanosecond and at most 10 seconds.
abbrev pub IsShort : ℤ → Type 0
IsShort (pos n) = (0 < n) × (n ≤ 10 * second)
IsShort (negsuc n) = ⊥

capped-IsShort :
    (n : ℕ)
    → 0 < n
    → IsShort (if at_least (suc max_retry_wait) (pos n) then pos max_retry_wait else pos n)
capped-IsShort n h = elim (Bool-cases (at_least (suc max_retry_wait) (pos n))) [
  | inl over ↦ rw over (omega arith)
  | inr under ↦ rw under (ground arith)
]

retry_wait-IsShort : (attempt : ℕ) (after : ℤ) → 0 < attempt → IsShort (retry_wait attempt after)
unfolding retry_wait
retry_wait-IsShort attempt (pos n) h = elim (Bool-cases (is_positive (pos n))) [
  | inl given ↦ rw given (capped-IsShort n (ground arith))
  | inr none_given ↦ rw none_given (capped-IsShort (default_retry_wait * attempt) (omega arith))
]
retry_wait-IsShort attempt (negsuc n) h =
    capped-IsShort (default_retry_wait * attempt) (omega arith)

-- The requests are retryable but for the last, and the last one says how `Send` ends.
abbrev pub Ends : List Result → Ending → Type 0
Ends [] e = ⊥
Ends (posted ∷ []) e = e ≡ delivered
Ends (refused ∷ []) e = e ≡ failed
Ends (retryable after ∷ []) delivered = ⊥
Ends (retryable after ∷ []) failed = Unit
Ends (retryable after ∷ []) (gave_up n) = Unit
Ends (posted ∷ r ∷ rs) e = ⊥
Ends (refused ∷ r ∷ rs) e = ⊥
Ends (retryable after ∷ r ∷ rs) e = Ends (r ∷ rs) e

-- What a reply makes of its request: 429 and the server errors call for another one, a status below
-- 300 accepts the message, and any other status, or no reply, refuses it.
abbrev pub Answers : Reply → Result → Type 0
Answers (answered status after) posted = status < 300
Answers (answered status after) (retryable wait) = (status ≡ 429) ⊎ (500 ≤ status)
Answers (answered status after) refused = (300 ≤ status) × (status < 500) × (status ≢ 429)
Answers unbuilt refused = Unit
Answers unanswered refused = Unit
Answers _ _ = ⊥

send_once-Answers : (until : Bytes → Option ℤ) (r : Reply) → Answers r (send_once until r)
unfolding send_once
send_once-Answers until unbuilt = tt
send_once-Answers until unanswered = tt
send_once-Answers until (answered status after) =
    elim (Bool-cases (status == 429 || leb 500 status)) [
      | inl again ↦ rw again (elim (Bool-cases (status == 429)) [
        | inl e ↦ inl (ground arith)
        | inr n ↦ inr (ground arith)
      ])
      | inr not_again ↦ rw not_again (elim (Bool-cases (leb 300 status)) [
        | inl bad ↦ rw bad (ground arith)
        | inr good ↦ rw good (ground arith)
      ])
    ]

-- What holds of a `Send` with `left` attempts before it.
record Fair (left : ℕ) (s : Sent) : Type 0 where
  asked : length s.results ≤ left
  waited : length s.waits < left
  short : All IsShort s.waits
  ends : Ends s.results s.ending

first-retryable :
    (after : ℤ) (rs : List Result) (e : Ending) → Ends rs e → Ends (retryable after ∷ rs) e
first-retryable after [] e h = elim h [ ]
first-retryable after (r ∷ rs) e h = h

pass-Fair :
    (left attempt : ℕ) (done : Bool) (r : Result) (later : Sent)
    → 0 < attempt
    → (attempt ≢ max_attempts → Fair left later)
    → Fair (suc left) (pass done attempt r later)
unfolding pass
pass-Fair left attempt done posted later h f = record {
  asked = omega arith;
  waited = omega arith;
  short = tt;
  ends = refl;
}
pass-Fair left attempt done refused later h f = record {
  asked = omega arith;
  waited = omega arith;
  short = tt;
  ends = refl;
}
pass-Fair left attempt done (retryable after) later h f =
    by_last (attempt == max_attempts) done refl
  where
    last :
        (e : Ending) (w : List ℤ)
        → length w < suc left
        → All IsShort w
        → Ends (retryable after ∷ []) e
        → Fair (suc left) (record { results = retryable after ∷ []; waits = w; ending = e })
    last e w l s x = record { asked = omega arith; waited = l; short = s; ends = x }

    wait : ℤ
    wait = retry_wait attempt after

    by_last :
        (b d : Bool)
        → (attempt == max_attempts) ≡ b
        → Fair (suc left) (
            if b
            then record { results = retryable after ∷ []; waits = []; ending = failed }
            else if d
            then record {
              results = retryable after ∷ [];
              waits = wait ∷ [];
              ending = gave_up attempt;
            }
            else record {
              results = retryable after ∷ later.results;
              waits = wait ∷ later.waits;
              ending = later.ending;
            })
    by_last true d e = last failed [] (omega arith) tt tt
    by_last false true e =
        last (gave_up attempt) (wait ∷ []) (omega (arith, (f (ground arith)).waited))
          (retry_wait-IsShort attempt after h, tt) tt
    by_last false false e =
        let l = f (ground arith) in
        record {
          asked = omega (arith, l.asked);
          waited = omega (arith, l.waited);
          short = (retry_wait-IsShort attempt after h, l.short);
          ends = first-retryable after later.results later.ending l.ends;
        }

module _ (until : Bytes → Option ℤ) (reply : ℕ → Reply) (done : ℕ → Bool) where
  attempts-Fair :
      (left attempt : ℕ)
      → 0 < attempt
      → attempt + left ≡ suc max_attempts
      → 0 < left
      → Fair left (attempts until reply done left attempt)
  unfolding attempts
  attempts-Fair zero attempt h sum more = absurd (omega arith)
  attempts-Fair (suc left) attempt h sum more =
      pass-Fair left attempt (done attempt) (send_once until (reply attempt))
        (attempts until reply done left (suc attempt)) h
        (λ ne. attempts-Fair left (suc attempt) (omega arith) (omega arith) (omega arith))

  -- The results are those of the replies, from an attempt on.
  abbrev pub AllAnswer : ℕ → List Result → Type 0
  AllAnswer n [] = Unit
  AllAnswer n (r ∷ rs) = Answers (reply n) r × AllAnswer (suc n) rs

  pass-AllAnswer :
      (attempt : ℕ) (d : Bool) (r : Result) (later : Sent)
      → Answers (reply attempt) r
      → AllAnswer (suc attempt) later.results
      → AllAnswer attempt (pass d attempt r later).results
  unfolding pass
  pass-AllAnswer attempt d posted later a rest = (a, tt)
  pass-AllAnswer attempt d refused later a rest = (a, tt)
  pass-AllAnswer attempt d (retryable after) later a rest =
      elim (Bool-cases (attempt == max_attempts)) [
        | inl e ↦ rw e (a, tt)
        | inr e ↦ rw e (elim (Bool-cases d) [ inl f ↦ rw f (a, tt) | inr f ↦ rw f (a, rest) ])
      ]

  attempts-AllAnswer :
      (left attempt : ℕ) → AllAnswer attempt (attempts until reply done left attempt).results
  unfolding attempts
  attempts-AllAnswer zero attempt = tt
  attempts-AllAnswer (suc left) attempt =
      pass-AllAnswer attempt (done attempt) (send_once until (reply attempt))
        (attempts until reply done left (suc attempt)) (send_once-Answers until (reply attempt))
        (attempts-AllAnswer left (suc attempt))

  -- Whatever the hook answers, `Send` makes at most three requests and waits at most twice, each
  -- time for more than nothing and at most 10 seconds. Every request but the last was answered by
  -- 429 or a server error. If the last one was answered by a status below 300 `Send` returns nil;
  -- if by another one that is neither 429 nor a server error, or not at all, the error; and
  -- otherwise the error or that it gave up in a wait.
  pub send-Ends :
      (length (send until reply done).results ≤ 3)
      × (length (send until reply done).waits < 3)
      × All IsShort (send until reply done).waits
      × AllAnswer 1 (send until reply done).results
      × Ends (send until reply done).results (send until reply done).ending
  unfolding send
  send-Ends =
      let f = attempts-Fair 3 1 (omega arith) (omega arith) (omega arith) in
      (f.asked, f.waited, f.short, attempts-AllAnswer 3 1, f.ends)
