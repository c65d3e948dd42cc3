-- ===== src/Decoder/Generator/Lines.antt =====
-- The lines of a Perl table, and what the loop of `extractTable` makes of each.
use irc_eew.Base.{
  ℕ, suc, ◌≡◌, ◌≢◌, refl, sym, ◌∙◌, ap, Bool, true, false, none, List, [], ◌∷◌, ◌++◌, append_assoc,
  arith, All, All-append, All-map,
}
use irc_eew.Base.Bytes.{Bytes, codes, equal}
use irc_eew.Base.Dict.{put}
use irc_eew.Base.Trim.{trim_space, has_prefix, IsVisible}
use irc_eew.Base.Trim.Framed.{IsSpace, trim_space-framed, trim_space-blanks}
use irc_eew.Decoder.Generator.Patterns.{skip_blanks, scan_key, entry_match, span_word}
use irc_eew.Decoder.Generator.{extracted, read_entries, key_of}
use irc_eew.Decoder.Generator.Rows.{
  IsBlank, Row, spell_row, IsRow, entry_match-spell_row, skip_blanks-append, skip_blanks-All,
  key_text, behind_key, comma_text, behind_value, quoted_of, bare_of, IsKey,
}

spaces : (b : Bytes) → All IsBlank b → All IsSpace b
spaces b h = All-map (λ c p. ground arith) b h

-- A text that ends with a visible byte and blanks.
record Framed (s : Bytes) : Type 0 where
  mid : Bytes
  last : ℕ
  trail : Bytes
  spelled : s ≡ mid ++ last ∷ trail
  visible : IsVisible last
  blank : All IsSpace trail

Framed-prepend : (p s : Bytes) → Framed s → Framed (p ++ s)
Framed-prepend p s f = record {
  mid = p ++ f.mid;
  last = f.last;
  trail = f.trail;
  spelled = ap (λ t. p ++ t) f.spelled ∙ sym (append_assoc p f.mid (f.last ∷ f.trail));
  visible = f.visible;
  blank = f.blank;
}

Framed-blanks : (z : ℕ) (trail : Bytes) → IsVisible z → All IsBlank trail → Framed (z ∷ trail)
Framed-blanks z trail v h = record {
  mid = [];
  last = z;
  trail = trail;
  spelled = refl;
  visible = v;
  blank = spaces trail h;
}

Framed-comma :
    (z : ℕ) (b : Bytes) (comma : Bool) (trail : Bytes)
    → IsVisible z
    → All IsBlank b
    → All IsBlank trail
    → Framed (z ∷ (b ++ (comma_text comma ++ trail)))
Framed-comma z b true trail v hb h =
    Framed-prepend (z ∷ b) (b',' ∷ trail) (Framed-blanks b',' trail (omega arith) h)
Framed-comma z b false trail v hb h =
    Framed-blanks z (b ++ trail) v (All-append IsBlank b trail hb h)

Framed-behind_key : (r : Row) → IsRow r → Framed (behind_key r)
Framed-behind_key r h = Framed-prepend r.before_arrow _ (
    Framed-prepend (codes "=>") _ (
      Framed-prepend r.after_arrow _ (
        Framed-prepend (b'\'' ∷ r.value) (b'\'' ∷ behind_value r) (
          Framed-comma b'\'' r.before_comma r.comma r.trail (omega arith) h.before_comma_blank
            h.trail_blank))))

-- What is left of a text by `TrimSpace` begins with its first visible byte.
trim_space-head :
    (lead s : Bytes) (a : ℕ)
    → All IsBlank lead
    → IsVisible a
    → Framed s
    → (rest : Bytes) × (trim_space (lead ++ a ∷ s) ≡ a ∷ rest)
trim_space-head lead s a hl ha f = (
  f.mid ++ f.last ∷ [],
  ap (λ t. trim_space (lead ++ a ∷ t)) f.spelled
      ∙ trim_space-framed lead f.mid f.trail a f.last (spaces lead hl) ha f.visible f.blank,
)

not_closing : (s rest : Bytes) (a : ℕ) → s ≡ a ∷ rest → a ≢ b')' → equal s (codes ");") ≡ false
not_closing s rest a e n = rw e (ground arith)

key_text-not_closing :
    (lead : Bytes) (bare : Bool) (key s : Bytes)
    → All IsBlank lead
    → IsKey bare key
    → Framed s
    → equal (trim_space (lead ++ (key_text bare key ++ s))) (codes ");") ≡ false
key_text-not_closing lead true [] s hl hk f = absurd (hk.0 refl)
key_text-not_closing lead true (c ∷ key) s hl hk f =
    let (rest, e) = trim_space-head lead (key ++ s) c hl (ground arith) (Framed-prepend key s f) in
    not_closing _ rest c e (ground arith)
key_text-not_closing lead false key s hl hk f =
    let (rest, e) =
      trim_space-head lead ((key ++ b'\'' ∷ []) ++ s) b'\'' hl (omega arith)
        (Framed-prepend (key ++ b'\'' ∷ []) s f) in
    not_closing _ rest b'\'' e (omega arith)

spell_row-not_closing : (r : Row) → IsRow r → equal (trim_space (spell_row r)) (codes ");") ≡ false
spell_row-not_closing r h =
    key_text-not_closing r.lead r.bare r.key (behind_key r) h.lead_blank h.key_ok
      (Framed-behind_key r h)

-- A comment ends with a visible byte, before blanks.
pub record Remark : Type 0 where
  pub lead : Bytes
  pub text : Bytes
  pub last : ℕ
  pub trail : Bytes

-- A line between the opening line and the closing one.
pub data Line : Type 0 where
  entry : Row → Line
  remark : Remark → Line
  blank : Bytes → Line

abbrev pub spell_line : Line → Bytes
spell_line (entry r) = spell_row r
spell_line (remark r) = r.lead ++ b'#' ∷ (r.text ++ r.last ∷ r.trail)
spell_line (blank b) = b

abbrev pub IsLine : Line → Type 0
IsLine (entry r) = IsRow r
IsLine (remark r) = All IsBlank r.lead × IsVisible r.last × All IsBlank r.trail
IsLine (blank b) = All IsBlank b

-- The closing line.
abbrev pub spell_closing : Bytes → Bytes → Bytes
spell_closing lead trail = lead ++ (codes ");" ++ trail)

-- What a line puts into the table.
abbrev pub put_line : List (Bytes × Bytes) → Line → List (Bytes × Bytes)
put_line m (entry r) = put r.key r.value m
put_line m (remark r) = m
put_line m (blank b) = m

abbrev pub put_all : List (Bytes × Bytes) → List Line → List (Bytes × Bytes)
put_all m [] = m
put_all m (l ∷ ls) = put_all (put_line m l) ls

abbrev pub spell_lines : List Line → List Bytes → List Bytes
spell_lines [] more = more
spell_lines (l ∷ ls) more = spell_line l ∷ spell_lines ls more

key_of-key : (bare : Bool) (key : Bytes) → key_of (quoted_of bare key) (bare_of bare key) ≡ key
key_of-key true key = refl
key_of-key false [] = refl
key_of-key false (c ∷ key) = refl

read_entries-entry :
    (i : ℕ) (m : List (Bytes × Bytes)) (r : Row) (ls : List Bytes)
    → IsRow r
    → read_entries i m (spell_row r ∷ ls) ≡ read_entries (suc i) (put r.key r.value m) ls
unfolding read_entries
read_entries-entry i m r ls h =
    rw (spell_row-not_closing r h, entry_match-spell_row r h, key_of-key r.bare r.key, read_entries)
      refl

remark-trimmed :
    (r : Remark)
    → IsLine (remark r)
    → trim_space (spell_line (remark r)) ≡ b'#' ∷ (r.text ++ r.last ∷ [])
remark-trimmed r h =
    trim_space-framed r.lead r.text r.trail b'#' r.last (spaces r.lead h.0) (omega arith) h.1
      (spaces r.trail h.2)

remark-unmatched : (r : Remark) → IsLine (remark r) → entry_match (spell_line (remark r)) ≡ none
unfolding entry_match skip_blanks scan_key span_word
remark-unmatched r h = rw (skip_blanks-append r.lead (b'#' ∷ (r.text ++ r.last ∷ r.trail)) h.0) refl

read_entries-remark :
    (i : ℕ) (m : List (Bytes × Bytes)) (r : Remark) (ls : List Bytes)
    → IsLine (remark r)
    → read_entries i m (spell_line (remark r) ∷ ls) ≡ read_entries (suc i) m ls
unfolding read_entries has_prefix
read_entries-remark i m r ls h =
    rw (remark-trimmed r h, remark-unmatched r h, read_entries) (rw (remark-trimmed r h) refl)

blank-unmatched : (b : Bytes) → All IsBlank b → entry_match b ≡ none
unfolding entry_match scan_key
blank-unmatched b h = rw (skip_blanks-All b h) refl

read_entries-blank :
    (i : ℕ) (m : List (Bytes × Bytes)) (b : Bytes) (ls : List Bytes)
    → All IsBlank b
    → read_entries i m (b ∷ ls) ≡ read_entries (suc i) m ls
unfolding read_entries
read_entries-blank i m b ls h =
    rw (trim_space-blanks b (spaces b h), blank-unmatched b h, read_entries)
      (rw (trim_space-blanks b (spaces b h)) refl)

read_entries-closing :
    (i : ℕ) (m : List (Bytes × Bytes)) (lead trail : Bytes) (ls : List Bytes)
    → All IsBlank lead
    → All IsBlank trail
    → read_entries i m (spell_closing lead trail ∷ ls) ≡ extracted m
unfolding read_entries
read_entries-closing i m lead trail ls hl ht =
    rw
      (
        trim_space-framed lead [] trail b')' b';' (spaces lead hl) (omega arith) (omega arith)
            (spaces trail ht),
        read_entries,
      )
      refl

-- The lines of a table up to its closing line are read one by one.
pub read_entries-spell_lines :
    (i : ℕ) (m : List (Bytes × Bytes)) (ls : List Line) (lead trail : Bytes) (more : List Bytes)
    → All IsLine ls
    → All IsBlank lead
    → All IsBlank trail
    → read_entries i m (spell_lines ls (spell_closing lead trail ∷ more)) ≡ extracted (put_all m ls)
read_entries-spell_lines i m [] lead trail more h hl ht =
    read_entries-closing i m lead trail more hl ht
read_entries-spell_lines i m (entry r ∷ ls) lead trail more h hl ht =
    read_entries-entry i m r _ h.0 ∙ read_entries-spell_lines (suc i) _ ls lead trail more h.1 hl ht
read_entries-spell_lines i m (remark r ∷ ls) lead trail more h hl ht =
    read_entries-remark i m r _ h.0
    ∙ read_entries-spell_lines (suc i) m ls lead trail more h.1 hl ht
read_entries-spell_lines i m (blank b ∷ ls) lead trail more h hl ht =
    read_entries-blank i m b _ h.0 ∙ read_entries-spell_lines (suc i) m ls lead trail more h.1 hl ht
