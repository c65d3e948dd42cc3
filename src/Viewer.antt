-- ===== src/Viewer.antt =====
-- internal/eewview/config.go, html.go, sjis.go and server.go: what the handlers of the log viewer
-- share. The environment and the decoder of Shift-JIS are arguments.
pub mod Summary
pub mod Detail
pub mod Listing
pub mod Markup
mod Tests
use irc_eew.Base.{ℕ, Option, none, some, List, [], ◌∷◌, ◌++◌, ◌==◌, if◌then◌else◌}
use irc_eew.Base.Bytes.{Bytes, codes}

pub record Config : Type 0 where
  pub data_dir : Bytes
  pub path_base : Bytes
  pub viewer_path : Bytes
  pub listen_addr : Bytes

-- `envOr`, on the value of the variable.
pub env_or : Bytes → Bytes → Bytes
env_or [] other = other
env_or (c ∷ v) other = c ∷ v

-- `LoadConfigFromEnv`
pub load_config_from_env : (Bytes → Bytes) → Config
unfolding env_or
load_config_from_env getenv = record {
  data_dir = env_or (getenv (codes "EEW_DATA_DIR")) (codes "./eewlog/");
  path_base = env_or (getenv (codes "EEW_PATH_BASE")) (codes "./");
  viewer_path = env_or (getenv (codes "EEW_VIEWER")) (codes "eew-show");
  listen_addr = env_or (getenv (codes "EEW_LISTEN_ADDR")) (codes ":8080");
}

-- `template.HTMLEscapeString`, byte by byte. A NUL becomes U+FFFD.
pub escape_byte : ℕ → Bytes
escape_byte c =
    if c == b'"'
    then codes "&#34;"
    else if c == b'\''
    then codes "&#39;"
    else if c == b'&'
    then codes "&amp;"
    else if c == b'<'
    then codes "&lt;"
    else if c == b'>'
    then codes "&gt;"
    else if c == 0
    then 0xEF ∷ 0xBF ∷ 0xBD ∷ []
    else c ∷ []

-- `escaped`
unfoldable pub escaped : Bytes → Bytes
unfolding escape_byte
escaped [] = []
escaped (c ∷ s) = escape_byte c ++ escaped s

-- `link`
unfoldable pub link : Bytes → Bytes → Bytes
link href label =
    codes "<a href=\"" ++ (escaped href ++ (codes "\">" ++ (escaped label ++ codes "</a>")))

-- `decodeShiftJIS`; the decoder may fail.
pub decode_shift_jis : (Bytes → Option Bytes) → Bytes → Bytes
decode_shift_jis decoder raw = elim (decoder raw) [ none ↦ raw | some decoded ↦ decoded ]

mark_byte : ℕ → Bytes
mark_byte c =
    if c == 1
    then codes "[SOH]\n"
    else if c == 2
    then codes "[STX]\n"
    else if c == 3
    then codes "[ETX]\n"
    else c ∷ []

-- `markControlChars`
pub mark_control_chars : Bytes → Bytes
unfolding mark_byte
mark_control_chars [] = []
mark_control_chars (c ∷ s) = mark_byte c ++ mark_control_chars s

trim_slash : Bytes → Bytes
trim_slash [] = []
trim_slash (c ∷ s) = if c == b'/' then s else c ∷ s

-- The route of the detail view in `NewServer`.
pub viewer_route : Config → Bytes
unfolding trim_slash
viewer_route cfg = b'/' ∷ trim_slash cfg.viewer_path
