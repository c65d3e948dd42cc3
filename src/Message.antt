-- ===== src/Message.antt =====
-- internal/eewmsg/format.go: the text of a telegram; and internal/irc/link.go: the text without its
-- links. A float is held in tenths, and `%.1f` prints the tenths that it holds.
pub mod Plain
mod Tests
use irc_eew.Base.{
  ℕ, zero, suc, ◌-◌, ◌/◌, ◌%◌, Bool, true, false, Option, none, some, List, [], ◌∷◌, ◌++◌, ◌==◌,
  if◌then◌else◌, length, get_elem?, get_or,
}
use irc_eew.Base.Bytes.{Bytes, codes, utf8}
use irc_eew.Base.Decimal.{dec, show}
use irc_eew.Base.Int.{ℤ, pos, negsuc}
use irc_eew.Decoder.Telegram.{Telegram, is_final, is_cancellation}

-- `splitPairs`
unfoldable pub split_pairs : Bytes → List Bytes
split_pairs [] = []
split_pairs (a ∷ []) = []
split_pairs (a ∷ b ∷ s) = (a ∷ b ∷ []) ∷ split_pairs s

-- `at`, from a place that is not negative.
abbrev pub at : List Bytes → ℕ → Bytes
at parts i = get_or (get_elem? parts i) []

-- `20%s/%s/%s %s:%s:%s`
unfoldable pub stamp : Bytes → Bytes
unfolding split_pairs
stamp time =
    let parts = split_pairs time in
    codes "20"
    ++ (at parts 0
        ++ (codes "/"
            ++ (at parts 1
                ++ (codes "/"
                    ++ (at parts 2
                        ++ (codes " "
                            ++ (at parts 3
                                ++ (codes ":" ++ (at parts 4 ++ (codes ":" ++ at parts 5))))))))))

-- `%.1f`
unfoldable pub show_tenths : ℤ → Bytes
show_tenths (pos n) = dec (n / 10) ++ (codes "." ++ dec (n % 10))
show_tenths (negsuc n) = codes "-" ++ (dec (suc n / 10) ++ (codes "." ++ dec (suc n % 10)))

-- The report number, and the mark of a final report.
unfoldable pub report : Telegram → Bytes
report t = utf8 " 第" ++ (show t.warn_num ++ (utf8 "報" ++ (if is_final t then utf8 "(最終)" else [])))

unfoldable pub map_uri : Telegram → Bytes
unfolding show_tenths
map_uri t =
    codes "http://maps.google.com/maps?q="
    ++ (show_tenths t.center_lat ++ (codes "," ++ show_tenths t.center_lng))

-- The label of the link.
unfoldable pub place : Telegram → Bytes
unfolding show_tenths
place t = codes "N" ++ (show_tenths t.center_lat ++ (codes "/E" ++ show_tenths t.center_lng))

-- What stands before the link, and what stands behind it.
unfoldable pub opening : Telegram → Bytes
unfolding stamp report
opening t = stamp t.warn_time ++ (report t ++ (codes " (" ++ stamp t.eq_time))

unfoldable pub closing : Telegram → Bytes
unfolding show_tenths
closing t =
    codes "("
    ++ (t.center_name
        ++ (utf8 ")深さ"
            ++ (show t.center_depth
                ++ (utf8 "km 最大:M" ++ (show_tenths t.magnitude ++ (utf8 " 震度" ++ t.shindo))))))

-- The text of `Format`.
unfoldable pub format_text : Telegram → Bytes
unfolding opening closing map_uri place
format_text t =
    if is_cancellation t
    then opening t ++ utf8 "発生) 取り消されました"
    else (opening t ++ utf8 "発生)震央:")
      ++ (b'<' ∷ (map_uri t ++ (b'|' ∷ (place t ++ (b'>' ∷ closing t)))))

-- The title of `Format`, from the warning's type.
unfoldable pub titled : Bytes → Bytes
titled [] = utf8 "緊急地震速報"
titled (c ∷ warn_type) = (c ∷ warn_type) ++ utf8 "緊急地震速報"

unfoldable pub format_title : Telegram → Bytes
unfolding titled
format_title t = titled t.warn_type

-- The text before the first byte `c` of the line, and the text behind it.
pub to_byte : ℕ → Bytes → Option (Bytes × Bytes)
to_byte c [] = none
to_byte c (x ∷ s) =
    if x == c
    then some ([], s)
    else if x == b'\n'
    then none
    else elim (to_byte c s) [ none ↦ none | some (before, behind) ↦ some (x ∷ before, behind) ]

-- Behind a `<`: the label of the link, and the text behind the link.
pub link : Bytes → Option (Bytes × Bytes)
unfolding to_byte
link s = elim (to_byte b'|' s) [ none ↦ none | some (uri, rest) ↦ to_byte b'>' rest ]

-- The number counts the bytes of the last link still to pass.
pub strip_from : ℕ → Bytes → Bytes
unfolding link
strip_from k [] = []
strip_from (suc k) (c ∷ s) = strip_from k s
strip_from zero (c ∷ s) = elim (if c == b'<' then link s else none) [
  | none ↦ c ∷ strip_from 0 s
  | some (label, rest) ↦ label ++ strip_from (length s - length rest) s
]

-- `StripLinks`
unfoldable pub strip_links : Bytes → Bytes
unfolding strip_from
strip_links s = strip_from 0 s
