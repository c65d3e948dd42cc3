-- ===== src/App/Delivery.antt =====
-- From the bytes of the server to the sends and the notices.
use irc_eew.App.Loop.{Done, running}
use irc_eew.App.{Send, hooks_of}
use irc_eew.Archive.{Files}
use irc_eew.Base.{ℕ, ◌≡◌, Option, List, [], ◌∷◌, ◌++◌, map, if◌then◌else◌}
use irc_eew.Base.Bytes.{Bytes}
use irc_eew.Base.Int.{ℤ}
use irc_eew.Config.{Config, IrcServerConfig}
use irc_eew.Decoder.Decode.{decode}
use irc_eew.Decoder.Telegram.{Telegram}
use irc_eew.Irc.Connection.Notices.{notify_each, posted}
use irc_eew.Irc.Connection.{Connection}
use irc_eew.Irc.Queue.{Notice, pending}
use irc_eew.Message.{format_text, format_title}
use irc_eew.Notify.News.{is_news}
use irc_eew.Notify.{Hook, Dispatcher}

-- The telegrams that the bodies spell.
abbrev pub telegrams : List (Bytes × Bytes) → List Telegram
telegrams [] = []
telegrams ((md5, body) ∷ ts) = decode body ∷ telegrams ts

-- The same, with the texts.
abbrev pub reports : List (Bytes × Bytes) → List (Telegram × Bytes)
reports [] = []
reports ((md5, body) ∷ ts) = (decode body, format_text (decode body)) ∷ reports ts

-- The sends that telegrams call for, by the telegram before each: one to each hook that is chosen.
pub sends_by_news : List Hook → List Hook → Bytes → List Telegram → List Send
sends_by_news all limited last [] = []
sends_by_news all limited last (t ∷ ts) =
    map (λ h. record { hook = h; text = format_text t; title = format_title t })
      (if is_news last t then all ++ limited else all)
    ++ sends_by_news all limited t.eq_id ts

-- Each connection is notified of each report.
abbrev pub notify_all : List Connection → List (Telegram × Bytes) → List Connection
notify_all [] ts = []
notify_all (c ∷ conns) ts = notify_each c ts ∷ notify_all conns ts

-- The notices that are pending on each connection.
abbrev pub pending_on : List Connection → List (List Notice)
pending_on [] = []
pending_on (c ∷ conns) = pending c.queue ∷ pending_on conns

-- The notices that reports call for on each server, while nothing is sent.
pub posted_on : List IrcServerConfig → List (Telegram × Bytes) → List (List Notice)
posted_on [] ts = []
posted_on (srv ∷ servers) ts =
    posted srv.all_notice srv.limited_notice [] ts [] ∷ posted_on servers ts

module _ {S : Type 0} (files : Files S) (clock : ℕ → ℤ) where
  module _ (all limited : List Hook) where
    abbrev at_id : Bytes → Dispatcher
    at_id last = record { all = all; limited = limited; last_eq_id = last }

-- What a daemon has sent, and has pending, when it has handled some telegrams.
pub record Delivered {S : Type 0} (host_of : Bytes → Option Bytes) (cfg : Config)
    (ts : List (Bytes × Bytes)) (r : Done S) : Type 0 where
  pub reads_on : r.outcome ≡ running
  pub slack :
      r.daemon.sends
      ≡ sends_by_news
          (hooks_of host_of cfg.slack).0
          (hooks_of host_of cfg.slack).1
          []
          (telegrams ts)
  pub irc : pending_on r.daemon.conns ≡ posted_on cfg.irc (reports ts)
