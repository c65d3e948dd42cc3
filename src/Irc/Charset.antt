-- ===== src/Irc/Charset.antt =====
-- internal/irc/charset.go: `EncodeText`. The encoder of golang.org/x/text is an argument; `none` is
-- its error.
use irc_eew.Base.{[], ◌||◌, Option, none, some, if◌then◌else◌}
use irc_eew.Base.Bytes.{Bytes, codes, equal}

-- What `charsetEncoder` finds: no encoder is needed, ISO-2022-JP, or the name is unknown.
pub data Charset : Type 0 where
  passthrough iso_2022_jp unknown : Charset

pub charset_encoder : Bytes → Charset
charset_encoder charset =
    if equal charset [] || equal charset (codes "utf-8") || equal charset (codes "UTF-8")
    then passthrough
    else if equal charset (codes "iso-2022-jp") || equal charset (codes "ISO-2022-JP")
    then iso_2022_jp
    else unknown

encode_by : (Bytes → Option Bytes) → Charset → Bytes → Option Bytes
encode_by iso passthrough s = some s
encode_by iso iso_2022_jp s = iso s
encode_by iso unknown s = none

-- `EncodeText`
unfoldable pub encode_text : (Bytes → Option Bytes) → Bytes → Bytes → Option Bytes
unfolding charset_encoder encode_by
encode_text iso charset s = encode_by iso (charset_encoder charset) s
