-- ===== src/Message/Plain.antt =====
-- The text that IRC gets.
mod Links
use irc_eew.Base.{
  ℕ, zero, suc, ◌+◌, ◌-◌, ◌/◌, ◌%◌, ◌≤◌, ◌≡◌, ◌≢◌, refl, sym, ◌∙◌, ap, Bool, true, false, some,
  List, [], ◌∷◌, ◌++◌, arith, All, All-append, All-map, append_assoc, append-nil, length,
  length-append, if◌then◌else◌, ◌==◌,
}
use irc_eew.Base.Bytes.{Bytes, codes, utf8, utf8_char}
use irc_eew.Base.Decimal.{dec, dec-IsDigit, show}
use irc_eew.Base.Int.{ℤ, pos, negsuc}
use irc_eew.Decoder.Telegram.{Telegram, is_final, is_cancellation}
use irc_eew.Message.{
  split_pairs, at, stamp, show_tenths, report, map_uri, place, opening, closing, format_text,
  to_byte, link, strip_from, strip_links,
}
use irc_eew.Message.Plain.Links.{
  IsPlain, strip_from-IsPlain, strip_from-all, strip_from-drop, to_byte-append, link-append,
  strip_link, strip_from-link,
}

abbrev IsNumeral : ℕ → Type 0
IsNumeral c = (b'-' ≤ c) × (c ≤ b'9')

dec-IsNumeral : (n : ℕ) → All IsNumeral (dec n)
dec-IsNumeral n = All-map (λ c h. omega arith) (dec n) (dec-IsDigit n)

show-IsNumeral : (z : ℤ) → All IsNumeral (show z)
unfolding show
show-IsNumeral (pos n) = dec-IsNumeral n
show-IsNumeral (negsuc n) = (omega arith, dec-IsNumeral (suc n))

tenths-IsNumeral : (n : ℕ) → All IsNumeral (dec (n / 10) ++ (codes "." ++ dec (n % 10)))
tenths-IsNumeral n =
    All-append IsNumeral (dec (n / 10)) _ (dec-IsNumeral (n / 10))
      (omega arith, dec-IsNumeral (n % 10))

show_tenths-IsNumeral : (z : ℤ) → All IsNumeral (show_tenths z)
unfolding show_tenths
show_tenths-IsNumeral (pos n) = tenths-IsNumeral n
show_tenths-IsNumeral (negsuc n) = (omega arith, tenths-IsNumeral (suc n))

-- A printed number, with what holds of its bytes.
numeral : (P : ℕ → Type 0) (s : Bytes) → ((c : ℕ) → IsNumeral c → P c) → All IsNumeral s → All P s
numeral P s f h = All-map f s h

split_pairs-IsPlain : (s : Bytes) → IsPlain s → All IsPlain (split_pairs s)
unfolding split_pairs
split_pairs-IsPlain [] h = tt
split_pairs-IsPlain (a ∷ []) h = tt
split_pairs-IsPlain (a ∷ b ∷ s) h = ((h.0, (h.1.0, tt)), split_pairs-IsPlain s h.1.1)

at-IsPlain : (parts : List Bytes) (i : ℕ) → All IsPlain parts → IsPlain (at parts i)
at-IsPlain [] i h = tt
at-IsPlain (p ∷ parts) zero h = h.0
at-IsPlain (p ∷ parts) (suc i) h = at-IsPlain parts i h.1

join : (a b : Bytes) → IsPlain a → IsPlain b → IsPlain (a ++ b)
join a b = All-append (λ c. c ≢ b'<') a b

stamp-IsPlain : (time : Bytes) → IsPlain time → IsPlain (stamp time)
unfolding stamp
stamp-IsPlain time h =
    let p = λ (i : ℕ). at-IsPlain (split_pairs time) i (split_pairs-IsPlain time h) in
    (
      omega arith,
      (
        omega arith,
        join (at (split_pairs time) 0) _ (p 0) (
          omega arith,
          join (at (split_pairs time) 1) _ (p 1) (
            omega arith,
            join (at (split_pairs time) 2) _ (p 2) (
              omega arith,
              join (at (split_pairs time) 3) _ (p 3)
                  (omega arith, join (at (split_pairs time) 4) _ (p 4) (omega arith, p 5)),
            ),
          ),
        ),
      ),
    )

report-IsPlain : (t : Telegram) → IsPlain (report t)
unfolding report utf8 utf8_char
report-IsPlain t = join (utf8 " 第") _ (omega arith) (
    join (show t.warn_num) _ (numeral _ _ (λ c h. omega arith) (show-IsNumeral t.warn_num))
      (join (utf8 "報") _ (omega arith) (mark (is_final t))))
  where
    mark : (b : Bool) → IsPlain (if b then utf8 "(最終)" else [])
    mark true = unfold utf8 in unfold utf8_char in omega arith
    mark false = tt

opening-IsPlain : (t : Telegram) → IsPlain t.warn_time → IsPlain t.eq_time → IsPlain (opening t)
unfolding opening
opening-IsPlain t w e =
    join (stamp t.warn_time) _ (stamp-IsPlain t.warn_time w)
      (join (report t) _ (report-IsPlain t) (omega arith, (omega arith, stamp-IsPlain t.eq_time e)))

closing-IsPlain : (t : Telegram) → IsPlain t.center_name → IsPlain t.shindo → IsPlain (closing t)
unfolding closing utf8 utf8_char
closing-IsPlain t n s = (
  omega arith,
  join t.center_name _ n (
      join (utf8 ")深さ") _ (omega arith) (
        join (show t.center_depth) _
          (numeral _ _ (λ c h. omega arith) (show-IsNumeral t.center_depth))
          (join (utf8 "km 最大:M") _ (omega arith) (
            join (show_tenths t.magnitude) _
              (numeral _ _ (λ c h. omega arith) (show_tenths-IsNumeral t.magnitude))
              (join (utf8 " 震度") _ (omega arith) s))))),
)

-- The text of a telegram without markup: the label of the link stands in its place.
pub irc_text : Telegram → Bytes
irc_text t =
    if is_cancellation t
    then opening t ++ utf8 "発生) 取り消されました"
    else (opening t ++ utf8 "発生)震央:") ++ (place t ++ closing t)

uri-OneLine : (t : Telegram) → All (λ x. (x ≢ b'|') × (x ≢ b'\n')) (map_uri t)
unfolding map_uri
uri-OneLine t = All-append _ (codes "http://maps.google.com/maps?q=") _ (omega arith) (
    All-append _ (show_tenths t.center_lat) _
      (numeral _ _ (λ c h. omega arith) (show_tenths-IsNumeral t.center_lat))
      (omega arith, numeral _ _ (λ c h. omega arith) (show_tenths-IsNumeral t.center_lng)))

place-OneLine : (t : Telegram) → All (λ x. (x ≢ b'>') × (x ≢ b'\n')) (place t)
unfolding place
place-OneLine t = (
  omega arith,
  All-append _ (show_tenths t.center_lat) _
      (numeral _ _ (λ c h. omega arith) (show_tenths-IsNumeral t.center_lat))
      (
        omega arith,
        (omega arith, numeral _ _ (λ c h. omega arith) (show_tenths-IsNumeral t.center_lng)),
      ),
)

-- `StripLinks` turns the text of `Format` into the same text with the link's label alone, for every
-- telegram whose times, center name and intensity hold no `<`.
pub strip_links-format_text :
    (t : Telegram)
    → IsPlain t.warn_time
    → IsPlain t.eq_time
    → IsPlain t.center_name
    → IsPlain t.shindo
    → strip_links (format_text t) ≡ irc_text t
unfolding strip_links format_text irc_text
strip_links-format_text t w e n s = by_kind (is_cancellation t)
  where
    before : (words : Bytes) → IsPlain words → IsPlain (opening t ++ words)
    before words h = join (opening t) words (opening-IsPlain t w e) h

    by_kind :
        (b : Bool)
        → strip_from 0 (
            if b
            then opening t ++ utf8 "発生) 取り消されました"
            else (opening t ++ utf8 "発生)震央:")
              ++ (b'<' ∷ (map_uri t ++ (b'|' ∷ (place t ++ (b'>' ∷ closing t))))))
          ≡ (if b
              then opening t ++ utf8 "発生) 取り消されました"
              else (opening t ++ utf8 "発生)震央:") ++ (place t ++ closing t))
    by_kind true =
        strip_from-all (opening t ++ utf8 "発生) 取り消されました")
          (before _ (unfold utf8 in unfold utf8_char in omega arith))
    by_kind false =
        strip_from-link (opening t ++ utf8 "発生)震央:") (map_uri t) (place t) (closing t)
          (before _ (unfold utf8 in unfold utf8_char in omega arith)) (uri-OneLine t)
          (place-OneLine t) (closing-IsPlain t n s)
