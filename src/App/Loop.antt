-- ===== src/App/Loop.antt =====
-- internal/app/app.go: `runConnectionLoop` and `connectAndLogin`. What the outside does in one
-- pass of the loop is an `Attempt`; what the loop does besides `onData` is logged.
pub mod Pacing
pub mod Session
use irc_eew.App.{Daemon, handle}
use irc_eew.Archive.{Files}
use irc_eew.Base.{ℕ, Bool, true, false, List, [], ◌∷◌, ◌++◌, map, if◌then◌else◌}
use irc_eew.Base.Bytes.{Bytes}
use irc_eew.Base.Int.{ℤ}
use irc_eew.Irc.Connection.{initial_backoff, max_backoff, next_backoff}
use irc_eew.Servers.{Fetched, Resolved, address, error, panics, Resolver, resolve}
use irc_eew.Wni.Client.{
  Event, Handlers, Call, Ending, waiting, context_error, deadline_error, read_error, ack_error,
  panicked, diverged, run,
}
use irc_eew.Wni.Frame.{World, new_parser}

pub record Attempt : Type 0 where
  pub fetched : Fetched
  -- `Dial` and the write of `Login` succeed
  pub dials : Bool
  pub logs_in : Bool
  -- what `sleepCtx` returns, if it is called
  pub slept : Bool
  -- what the client's connection does
  pub world : World
  pub events : List Event
  -- the context is done when the client has returned
  pub canceled_then : Bool

pub data Pass : Type 0 where
  -- the context is done at the head of the loop
  canceled : Pass
  attempt : Attempt → Pass

-- What `connectAndLogin` gives.
pub data Login : Type 0 where
  connected : Bytes → Login
  refused : Login
  -- the panic of the resolver
  broken : Login

login_at : Resolved → Bool → Bool → Login
login_at (address a) true true = connected a
login_at (address a) _ _ = refused
login_at error _ _ = refused
login_at panics _ _ = broken

-- `connectAndLogin`
unfoldable pub connect_and_login : (ℕ → ℕ) → Resolver → Attempt → Login × Resolver
unfolding login_at
connect_and_login intn r a =
    let found = resolve intn r a.fetched in (login_at found.0 a.dials a.logs_in, found.1)

-- A line of the log: a connection to an address, or a delay before the next attempt.
pub data Entry : Type 0 where
  served : Bytes → Entry
  delayed : ℤ → Entry

-- Where the loop is after some passes.
pub data Outcome : Type 0 where
  running returned crashed : Outcome

pub record Done (S : Type 0) : Type 0 where
  pub log : List Entry
  pub daemon : Daemon S
  pub outcome : Outcome

abbrev logged : {S : Type 0} → Entry → Done S → Done S
logged e r = record r { log = e ∷ r.log }

abbrev halted : {S : Type 0} → Daemon S → Outcome → Done S
halted d o = record { log = []; daemon = d; outcome = o }

-- The loop after `client.Run`; `again` is the rest of the loop.
pub after_run : {S : Type 0} → Ending → Bool → Daemon S → Done S → Done S
after_run waiting canceled_then d again = halted d running
after_run diverged canceled_then d again = halted d running
after_run panicked canceled_then d again = halted d crashed
after_run _ canceled_then d again = if canceled_then then halted d returned else again

-- The loop after `connectAndLogin`, from a back-off on.
pub after_login : {S : Type 0} → Login → ℤ → Bool → Daemon S → Done S → Done S → Done S
after_login broken backoff slept d later serves = halted d crashed
after_login refused backoff slept d later serves =
    logged (delayed backoff) (if slept then later else halted d returned)
after_login (connected addr) backoff slept d later serves = logged (served addr) serves

module _ {S : Type 0} (files : Files S) (clock : ℕ → ℤ) (intn : ℕ → ℕ) (handlers : Handlers) where
  -- The loop, from a back-off on.
  pub loop : ℤ → Resolver → Daemon S → List Pass → Done S
  unfolding after_run after_login connect_and_login
  loop backoff r d [] = halted d running
  loop backoff r d (canceled ∷ ps) = halted d returned
  loop backoff r d (attempt a ∷ ps) =
      let (login, s) = connect_and_login intn r a in
      let ran = run a.world handlers new_parser a.events in
      let e = handle files clock d ran.0 in
      let later = loop (next_backoff backoff max_backoff) s d ps in
      let again = loop initial_backoff s e ps in
      after_login login backoff a.slept d later (after_run ran.1 a.canceled_then e again)

  -- `runConnectionLoop`
  pub run_connection_loop : Bytes → Daemon S → List Pass → Done S
  unfolding loop
  run_connection_loop override d ps =
      loop initial_backoff (record { override = override; cached = [] }) d ps
