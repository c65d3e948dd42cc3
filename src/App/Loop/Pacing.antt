-- ===== src/App/Loop/Pacing.antt =====
-- How the loop spaces its attempts.
use irc_eew.App.Loop.{
  Pass, canceled, attempt, Login, connected, refused, broken, Entry, served, delayed, Done,
  after_run, after_login, connect_and_login, loop, run_connection_loop,
}
use irc_eew.App.{Daemon, handle}
use irc_eew.Archive.{Files}
use irc_eew.Base.{ℕ, ◌*◌, ◌≡◌, refl, sym, subst, Bool, true, false, List, [], ◌∷◌}
use irc_eew.Base.Bytes.{Bytes}
use irc_eew.Base.Int.{ℤ, pos}
use irc_eew.Irc.Connection.Backoff.{capped, next_backoff-capped}
use irc_eew.Irc.Connection.{second}
use irc_eew.Servers.{Resolver}
use irc_eew.Wni.Client.{
  Handlers, Ending, waiting, context_error, deadline_error, read_error, ack_error, panicked,
  diverged, run,
}
use irc_eew.Wni.Frame.{new_parser}

-- Each delay is twice the one before, from `c` nanoseconds on and up to 60 seconds; after a
-- connection that was logged in to it starts at 1 second again.
abbrev pub Paced : ℕ → List Entry → Type 0
Paced c [] = Unit
Paced c (delayed z ∷ es) = (z ≡ pos (capped c)) × Paced (c * 2) es
Paced c (served addr ∷ es) = Paced second es

module _ {S : Type 0} (files : Files S) (clock : ℕ → ℤ) (intn : ℕ → ℕ) (handlers : Handlers) where
  after_run-Paced :
      (c : ℕ) (e : Ending) (canceled_then : Bool) (d : Daemon S) (again : Done S)
      → Paced c again.log
      → Paced c (after_run e canceled_then d again).log
  unfolding after_run
  after_run-Paced c waiting canceled_then d again h = tt
  after_run-Paced c diverged canceled_then d again h = tt
  after_run-Paced c panicked canceled_then d again h = tt
  after_run-Paced c context_error true d again h = tt
  after_run-Paced c context_error false d again h = h
  after_run-Paced c deadline_error true d again h = tt
  after_run-Paced c deadline_error false d again h = h
  after_run-Paced c read_error true d again h = tt
  after_run-Paced c read_error false d again h = h
  after_run-Paced c ack_error true d again h = tt
  after_run-Paced c ack_error false d again h = h

  after_login-Paced :
      (c : ℕ) (l : Login) (slept : Bool) (d : Daemon S) (later serves : Done S)
      → Paced (c * 2) later.log
      → Paced second serves.log
      → Paced c (after_login l (pos (capped c)) slept d later serves).log
  unfolding after_login
  after_login-Paced c broken slept d later serves h k = tt
  after_login-Paced c refused true d later serves h k = (refl, h)
  after_login-Paced c refused false d later serves h k = (refl, tt)
  after_login-Paced c (connected addr) slept d later serves h k = k

  loop-Paced :
      (c : ℕ) (r : Resolver) (d : Daemon S) (ps : List Pass)
      → Paced c (loop files clock intn handlers (pos (capped c)) r d ps).log
  unfolding loop
  loop-Paced c r d [] = tt
  loop-Paced c r d (canceled ∷ ps) = tt
  loop-Paced c r d (attempt a ∷ ps) =
      let (login, s) = connect_and_login intn r a in
      let ran = run a.world handlers new_parser a.events in
      let e = handle files clock d ran.0 in
      after_login-Paced c login a.slept d _ _
        (subst (λ z. Paced (c * 2) (loop files clock intn handlers z s d ps).log)
          (sym (next_backoff-capped c)) (loop-Paced (c * 2) s d ps))
        (after_run-Paced second ran.1 a.canceled_then e _ (loop-Paced second s e ps))

  -- Whatever happens to the attempts to connect, each delay of the loop before the next attempt is
  -- twice the one before it, up to 60 seconds; the first one, and the first one after each
  -- connection that was logged in to, is 1 second.
  pub run_connection_loop-Paced :
      (override : Bytes) (d : Daemon S) (ps : List Pass)
      → Paced second (run_connection_loop files clock intn handlers override d ps).log
  unfolding run_connection_loop
  run_connection_loop-Paced override d ps =
      loop-Paced second (record { override = override; cached = [] }) d ps
