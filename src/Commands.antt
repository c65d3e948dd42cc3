-- ===== src/Commands.antt =====
-- cmd/eew-replay/main.go, and the log level of cmd/eew-notifier/main.go. `read` is `os.ReadFile`,
-- and the messages of `Send` that are started are a list.
mod Tests
use irc_eew.App.{Send}
use irc_eew.Base.{
  ℕ, zero, suc, ◌+◌, Bool, true, false, ◌&&◌, Option, none, some, List, [], ◌∷◌, ◌++◌, leb,
  if◌then◌else◌,
}
use irc_eew.Base.Bytes.{Bytes, codes, equal}
use irc_eew.Base.Trim.{has_prefix}
use irc_eew.Decoder.Decode.{decode}
use irc_eew.Message.{format_text, format_title}

-- What `strings.ToLower` makes of the first rune, and how many more bytes that rune has: U+0130 and
-- U+212A become `i` and `k`; other runes beyond ASCII stay beyond ASCII, and are left alone here.
abbrev lower_rune : ℕ → Bytes → ℕ × ℕ
lower_rune c s =
    if has_prefix (c ∷ s) (0xC4 ∷ 0xB0 ∷ [])
    then (b'i', 1)
    else if has_prefix (c ∷ s) (0xE2 ∷ 0x84 ∷ 0xAA ∷ [])
    then (b'k', 2)
    else (if leb b'A' c && leb c b'Z' then c + 32 else c, 0)

-- The number counts the bytes of a rune still to pass.
lower_from : ℕ → Bytes → Bytes
lower_from k [] = []
lower_from (suc k) (c ∷ s) = lower_from k s
lower_from zero (c ∷ s) = let (rune, more) = lower_rune c s in rune ∷ lower_from more s

-- `strings.ToLower`
unfoldable pub to_lower : Bytes → Bytes
unfolding lower_from
to_lower s = lower_from 0 s

-- `slog.Level`
pub data Level : Type 0 where
  debug info warn error : Level

-- The cases of the `switch`; `none` is the error.
abbrev level_of : Bytes → Option Level
level_of s =
    if equal s (codes "debug")
    then some debug
    else if equal s (codes "info")
    then some info
    else if equal s []
    then some info
    else if equal s (codes "warn")
    then some warn
    else if equal s (codes "warning")
    then some warn
    else if equal s (codes "error")
    then some error
    else none

-- `parseLogLevel`
unfoldable pub parse_log_level : Bytes → Option Level
parse_log_level s = level_of (to_lower s)

-- What the replay prints, and the messages that it sends.
pub record Replayed : Type 0 where
  pub printed : Bytes
  pub sends : List Send

-- `=== %s ===\ntitle: %s\ntext:  %s\n\n`
abbrev section : Bytes → Bytes → Bytes → Bytes
section path title text =
    codes "=== "
    ++ (path ++ (codes " ===\ntitle: " ++ (title ++ (codes "\ntext:  " ++ (text ++ codes "\n\n")))))

-- The message to the webhook, if there is one.
abbrev sends_to : Bytes → Bytes → Bytes → List Send
sends_to [] text title = []
sends_to (c ∷ url) text title =
    record {
      hook = record { name = codes "eew-replay"; url = c ∷ url };
      text = text;
      title = title;
    }
    ∷ []

-- One telegram file, before what the loop does with the others.
unfoldable pub replay_file : Bytes → Bytes → Option Bytes → Replayed → Replayed
replay_file url path none later = later
replay_file url path (some body) later =
    let t = decode body in
    record {
      printed = section path (format_title t) (format_text t) ++ later.printed;
      sends = sends_to url (format_text t) (format_title t) ++ later.sends;
    }

-- The loop of `main` over its arguments.
unfoldable pub replay : (Bytes → Option Bytes) → Bytes → List Bytes → Replayed
unfolding replay_file
replay read url [] = record { printed = []; sends = [] }
replay read url (path ∷ paths) = replay_file url path (read path) (replay read url paths)

-- `main`, with its arguments; `none` is the exit of a call without files.
unfoldable pub replay_main : (Bytes → Option Bytes) → Bytes → List Bytes → Option Replayed
unfolding replay
replay_main read url [] = none
replay_main read url (path ∷ paths) = some (replay read url (path ∷ paths))
