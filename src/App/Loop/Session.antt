-- ===== src/App/Loop/Session.antt =====
-- A pass of the loop that ends in a client that reads on.
use irc_eew.App.Loop.{
  Attempt, attempt, connected, served, Done, running, after_run, after_login, connect_and_login,
  loop, run_connection_loop,
}
use irc_eew.App.{Daemon, handle}
use irc_eew.Archive.{Files}
use irc_eew.Base.{ℕ, ◌≡◌, ◌∙◌, ap, List, [], ◌∷◌}
use irc_eew.Base.Bytes.{Bytes}
use irc_eew.Base.Int.{ℤ}
use irc_eew.Irc.Connection.{initial_backoff, max_backoff, next_backoff}
use irc_eew.Servers.{Resolver}
use irc_eew.Wni.Client.{Handlers, Call, Ending, waiting, run}
use irc_eew.Wni.Frame.{new_parser}

module _ {S : Type 0} (files : Files S) (clock : ℕ → ℤ) (intn : ℕ → ℕ) (handlers : Handlers) where
  pub loop-waiting :
      (override : Bytes) (d : Daemon S) (a : Attempt) (addr : Bytes) (calls : List Call)
      → (connect_and_login intn (record { override = override; cached = [] }) a).0 ≡ connected addr
      → run a.world handlers new_parser a.events ≡ (calls, waiting)
      → run_connection_loop files clock intn handlers override d (attempt a ∷ [])
        ≡ record { log = served addr ∷ []; daemon = handle files clock d calls; outcome = running }
  unfolding run_connection_loop loop after_login after_run
  loop-waiting override d a addr calls up reads =
      ap
        (λ l.
          after_login l initial_backoff a.slept d
            (loop files clock intn handlers (next_backoff initial_backoff max_backoff) after d [])
            (served_by (run a.world handlers new_parser a.events)))
        up
      ∙ ap
          (λ ran.
            after_login (connected addr) initial_backoff a.slept d
              (loop files clock intn handlers (next_backoff initial_backoff max_backoff) after d [])
              (served_by ran))
          reads
    where
      after : Resolver
      after = (connect_and_login intn (record { override = override; cached = [] }) a).1

      served_by : List Call × Ending → Done S
      served_by ran =
          after_run ran.1 a.canceled_then (handle files clock d ran.0)
            (loop files clock intn handlers initial_backoff after (handle files clock d ran.0) [])
