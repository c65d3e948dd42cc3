-- ===== src/Irc/Connection/Backoff.antt =====
-- The delays between the connects.
use irc_eew.Base.{
  ℕ, zero, suc, ◌*◌, ◌≤◌, ◌≡◌, refl, ◌∙◌, ap, Bool, true, false, List, [], ◌∷◌, arith, length, All,
  ltb, if◌then◌else◌, Bool-cases, inl, inr,
}
use irc_eew.Base.Int.{ℤ, pos, negsuc, int64-pos, at_least}
use irc_eew.Irc.Connection.{
  second, initial_backoff, max_backoff, stable_connection_threshold, next_backoff,
  backoff_after_disconnect, Pass, canceled, unconnected, dropped, sleeps, run_sleeps,
}

-- From 1 second to 60 seconds.
abbrev pub IsDelay : ℤ → Type 0
IsDelay (pos n) = (1 * second ≤ n) × (n ≤ 60 * second)
IsDelay (negsuc n) = ⊥

-- Doubled, or the limit.
next_backoff-pos :
    (n : ℕ)
    → n ≤ max_backoff
    → next_backoff (pos n) max_backoff
      ≡ (if at_least (suc max_backoff) (pos (n * 2)) then pos max_backoff else pos (n * 2))
unfolding next_backoff
next_backoff-pos n h =
    ap (λ next. if at_least (suc max_backoff) next then pos max_backoff else next)
      (int64-pos (n * 2) (omega arith))

next_backoff-IsDelay : (z : ℤ) → IsDelay z → IsDelay (next_backoff z max_backoff)
next_backoff-IsDelay (negsuc n) h = elim h [ ]
next_backoff-IsDelay (pos n) h =
    rw (next_backoff-pos n (omega arith))
      (elim (Bool-cases (at_least (suc max_backoff) (pos (n * 2)))) [
        | inl over ↦ rw over (omega arith)
        | inr under ↦ rw under (ground arith)
      ])

backoff_after_disconnect-IsDelay : (z up : ℤ) → IsDelay z → IsDelay (backoff_after_disconnect z up)
unfolding backoff_after_disconnect
backoff_after_disconnect-IsDelay z up h =
    elim (Bool-cases (at_least stable_connection_threshold up)) [
      | inl stable ↦ rw stable (omega arith)
      | inr short ↦ rw short (next_backoff-IsDelay z h)
    ]

sleeps-IsDelay : (z : ℤ) (ps : List Pass) → IsDelay z → All IsDelay (sleeps z ps)
unfolding sleeps
sleeps-IsDelay z [] h = tt
sleeps-IsDelay z (canceled ∷ ps) h = tt
sleeps-IsDelay z (unconnected false ∷ ps) h = (h, tt)
sleeps-IsDelay z (unconnected true ∷ ps) h =
    (h, sleeps-IsDelay (next_backoff z max_backoff) ps (next_backoff-IsDelay z h))
sleeps-IsDelay z (dropped up slept ∷ ps) h =
    by_uptime (at_least stable_connection_threshold up) slept
      (sleeps-IsDelay (backoff_after_disconnect z up) ps next)
  where
    next : IsDelay (backoff_after_disconnect z up)
    next = backoff_after_disconnect-IsDelay z up h

    by_uptime :
        (stable slept : Bool)
        → All IsDelay (sleeps (backoff_after_disconnect z up) ps)
        → All IsDelay (
            if stable
            then sleeps (backoff_after_disconnect z up) ps
            else backoff_after_disconnect z up
              ∷ (if slept then sleeps (backoff_after_disconnect z up) ps else []))
    by_uptime true slept later = later
    by_uptime false true later = (next, later)
    by_uptime false false later = (next, tt)

-- How many passes of a `Run` fail to connect, or lose a connection that was up for less than 30
-- seconds, up to the pass that ends it.
abbrev pub setbacks : List Pass → ℕ
setbacks [] = 0
setbacks (canceled ∷ ps) = 0
setbacks (unconnected slept ∷ ps) = if slept then suc (setbacks ps) else 1
setbacks (dropped up slept ∷ ps) =
    if at_least (30 * second) up then setbacks ps else if slept then suc (setbacks ps) else 1

length-sleeps : (z : ℤ) (ps : List Pass) → length (sleeps z ps) ≡ setbacks ps
unfolding sleeps
length-sleeps z [] = refl
length-sleeps z (canceled ∷ ps) = refl
length-sleeps z (unconnected false ∷ ps) = refl
length-sleeps z (unconnected true ∷ ps) = ap suc (length-sleeps (next_backoff z max_backoff) ps)
length-sleeps z (dropped up slept ∷ ps) =
    by_uptime (at_least stable_connection_threshold up) slept
      (length-sleeps (backoff_after_disconnect z up) ps)
  where
    next : ℤ
    next = backoff_after_disconnect z up

    by_uptime :
        (stable slept : Bool)
        → length (sleeps next ps) ≡ setbacks ps
        → length (if stable then sleeps next ps else next ∷ (if slept then sleeps next ps else []))
          ≡ (if stable then setbacks ps else if slept then suc (setbacks ps) else 1)
    by_uptime true slept e = e
    by_uptime false true e = ap suc e
    by_uptime false false e = refl

-- Whatever happens to the connections of a `Run`, it sleeps once for each connect that fails and
-- each connection that is lost before it was up for 30 seconds, and each of these delays is at
-- least 1 second and at most 60 seconds. A connection that was up for longer brings no delay.
pub run_sleeps-IsDelay :
    (ps : List Pass) → (length (run_sleeps ps) ≡ setbacks ps) × All IsDelay (run_sleeps ps)
unfolding run_sleeps
run_sleeps-IsDelay ps =
    (length-sleeps initial_backoff ps, sleeps-IsDelay initial_backoff ps (omega arith))

-- A pass for each of `n` connects that fail.
abbrev pub failures : ℕ → List Pass
failures zero = []
failures (suc n) = unconnected true ∷ failures n

abbrev pub capped : ℕ → ℕ
capped c = if ltb max_backoff c then max_backoff else c

-- `n` delays, doubled from one to the next, but none above the limit.
abbrev pub doubled : ℕ → ℕ → List ℤ
doubled c zero = []
doubled c (suc n) = pos (capped c) ∷ doubled (c * 2) n

capped-doubled :
    (c : ℕ)
    → (if at_least (suc max_backoff) (pos (capped c * 2))
        then pos max_backoff
        else pos (capped c * 2))
      ≡ pos (capped (c * 2))
capped-doubled c = ground arith

capped_le : (c : ℕ) → capped c ≤ max_backoff
capped_le c = ground arith

pub next_backoff-capped : (c : ℕ) → next_backoff (pos (capped c)) max_backoff ≡ pos (capped (c * 2))
next_backoff-capped c = next_backoff-pos (capped c) (capped_le c) ∙ capped-doubled c

sleeps-failures : (c n : ℕ) → sleeps (pos (capped c)) (failures n) ≡ doubled c n
unfolding sleeps
sleeps-failures c zero = refl
sleeps-failures c (suc n) =
    ap (◌∷◌ (pos (capped c)))
      (ap (λ z. sleeps z (failures n)) (next_backoff-capped c) ∙ sleeps-failures (c * 2) n)

-- While connects fail the delays double, from 1 second on, up to 60 seconds.
pub run_sleeps-failures : (n : ℕ) → run_sleeps (failures n) ≡ doubled second n
unfolding run_sleeps
run_sleeps-failures n = sleeps-failures second n
