-- ===== src/Notify.antt =====
-- internal/notify/dispatcher.go: which Slack hooks get a telegram. The hooks are those of
-- internal/slack/notifier.go. `HooksFor` returns the hooks and the dispatcher with its new `lastEqID`.
use irc_eew.Base.{Bool, not, ◌||◌, List, [], ◌∷◌, ◌++◌, if◌then◌else◌}
use irc_eew.Base.Bytes.{Bytes, equal}
use irc_eew.Decoder.Telegram.{Telegram, is_final, is_cancellation}
pub mod News
mod Tests

pub record Hook : Type 0 where
  pub name : Bytes
  pub url : Bytes

pub record Dispatcher : Type 0 where
  pub all : List Hook
  pub limited : List Hook
  pub last_eq_id : Bytes

abbrev pub new_dispatcher : List Hook → List Hook → Dispatcher
new_dispatcher all limited = record { all = all; limited = limited; last_eq_id = [] }

unfoldable pub hooks_for : Dispatcher → Telegram → List Hook × Dispatcher
hooks_for d t =
    if not (equal t.eq_id d.last_eq_id) || is_cancellation t || is_final t
    then (d.all ++ d.limited, record d { last_eq_id = t.eq_id })
    else (d.all, d)
