-- ===== src/App.antt =====
-- internal/app/app.go: the wiring of the daemon. `Process` takes the time and the file system as
-- arguments; what the program sends to Slack is the list of the sends that it starts.
pub mod Loop
pub mod Delivery
pub mod Viewed
pub mod Written
mod Tests
use irc_eew.Archive.{Files, open_store, write_temp, finalize}
use irc_eew.Base.{
  ℕ, suc, Bool, true, false, Option, none, some, List, [], ◌∷◌, ◌++◌, map, if◌then◌else◌,
}
use irc_eew.Base.Bytes.{Bytes}
use irc_eew.Base.Int.{ℤ}
use irc_eew.Config.{Config, SlackConfig, IrcServerConfig, display_name}
use irc_eew.Decoder.Decode.{decode}
use irc_eew.Decoder.Telegram.{Telegram}
use irc_eew.Irc.Connection.{Connection, new_connection, notify}
use irc_eew.Message.{format_text, format_title}
use irc_eew.Notify.{Hook, Dispatcher, new_dispatcher, hooks_for}
use irc_eew.Wni.Client.{Call, on_data, on_keep_alive, on_response}

-- `toSlackHooks`
pub to_slack_hooks : (Bytes → Option Bytes) → List irc_eew.Config.Hook → List Hook
to_slack_hooks host_of [] = []
to_slack_hooks host_of (h ∷ hooks) =
    record { name = display_name host_of h; url = h.url } ∷ to_slack_hooks host_of hooks

-- `store` is the directory of the store, if there is one.
pub record Processor : Type 0 where
  pub store : Option Bytes
  pub dispatcher : Dispatcher

pub record ProcessResult : Type 0 where
  pub telegram : Telegram
  pub text : Bytes
  pub title : Bytes
  pub hooks : List Hook

module _ {S : Type 0} (files : Files S) where
  -- The temporary file, if there is a store.
  pub save_temp : S → Option Bytes → ℤ → Bytes → Bytes → S × Option Bytes
  save_temp s none now md5 body = (s, none)
  save_temp s (some base) now md5 body = write_temp files s base now md5 body

  -- The final name, if there is a store and a temporary file.
  pub save_final : S → Option Bytes → Option Bytes → Telegram → S
  save_final s (some base) (some temp) t = (finalize files s base temp t.eq_id t.warn_num).0
  save_final s _ _ t = s

  -- `Process`
  unfoldable pub process : ℤ → Processor → S → Bytes → Bytes → ProcessResult × Processor × S
  unfolding save_temp save_final
  process now p s md5 body =
      let saved = save_temp s p.store now md5 body in
      let t = decode body in
      let chosen = hooks_for p.dispatcher t in
      (
        record { telegram = t; text = format_text t; title = format_title t; hooks = chosen.0 },
        record p { dispatcher = chosen.1 },
        save_final saved.0 p.store saved.1 t,
      )

-- A `Send` that is started.
pub record Send : Type 0 where
  pub hook : Hook
  pub text : Bytes
  pub title : Bytes

-- `dispatchToSlack`
pub dispatch_to_slack : List Hook → Bytes → Bytes → List Send
dispatch_to_slack [] text title = []
dispatch_to_slack (h ∷ hooks) text title =
    record { hook = h; text = text; title = title } ∷ dispatch_to_slack hooks text title

-- `dispatchToIRC`
pub dispatch_to_irc : List Connection → Telegram → Bytes → List Connection
dispatch_to_irc [] t text = []
dispatch_to_irc (c ∷ conns) t text = notify c t text ∷ dispatch_to_irc conns t text

-- What `onData` changes.
pub record Daemon (S : Type 0) : Type 0 where
  pub processor : Processor
  pub disk : S
  -- the telegrams so far, for the clock
  pub received : ℕ
  pub conns : List Connection
  pub sends : List Send

module _ {S : Type 0} (files : Files S) (clock : ℕ → ℤ) where
  -- `onData`
  pub receive : Daemon S → Bytes → Bytes → Daemon S
  unfolding dispatch_to_slack dispatch_to_irc
  receive d md5 body =
      let (result, processor, disk) =
        process files (clock d.received) d.processor d.disk md5 body in
      record {
        processor = processor;
        disk = disk;
        received = suc d.received;
        conns = dispatch_to_irc d.conns result.telegram result.text;
        sends = d.sends ++ dispatch_to_slack result.hooks result.text result.title;
      }

  -- The handlers on the calls of `Client.Run`; the other two only log.
  pub handle : Daemon S → List Call → Daemon S
  unfolding receive
  handle d [] = d
  handle d (on_data md5 body ∷ calls) = handle (receive d md5 body) calls
  handle d (on_keep_alive ∷ calls) = handle d calls
  handle d (on_response header ∷ calls) = handle d calls

-- The connections, one for each server.
pub connections : List IrcServerConfig → List Connection
connections [] = []
connections (srv ∷ servers) = new_connection srv.all_notice srv.limited_notice ∷ connections servers

-- The hooks, if Slack is configured.
abbrev pub hooks_of : (Bytes → Option Bytes) → Option SlackConfig → List Hook × List Hook
hooks_of host_of none = ([], [])
hooks_of host_of (some s) = (to_slack_hooks host_of s.all, to_slack_hooks host_of s.limited)

-- The daemon as `Run` builds it on a store.
pub assemble : {S : Type 0} → (Bytes → Option Bytes) → Config → S → Option Bytes → Daemon S
unfolding connections
assemble host_of cfg s store =
    let hooks = hooks_of host_of cfg.slack in
    record {
      processor = record { store = store; dispatcher = new_dispatcher hooks.0 hooks.1 };
      disk = s;
      received = 0;
      conns = connections cfg.irc;
      sends = [];
    }

-- `Run` up to its loop; `none` is its error, of a log directory that cannot be written.
pub start : {S : Type 0} → Files S → (Bytes → Option Bytes) → Config → S → Option (Daemon S)
unfolding assemble
start {S} files host_of cfg s = start_on cfg.log_dir
  where
    opened : S × Option Bytes → Option (Daemon S)
    opened (t, none) = none
    opened (t, some base) = some (assemble host_of cfg t (some base))

    start_on : Bytes → Option (Daemon S)
    start_on [] = some (assemble host_of cfg s none)
    start_on (c ∷ log_dir) = opened (open_store files s (c ∷ log_dir))
