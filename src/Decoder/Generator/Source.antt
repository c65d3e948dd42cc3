-- ===== src/Decoder/Generator/Source.antt =====
-- A table as it stands in the Perl source, and what `extractTable` reads of it.
use irc_eew.Base.{
  ℕ, suc, ◌+◌, length, ◌≡◌, ◌≢◌, refl, ◌∙◌, ap, true, false, some, List, [], ◌∷◌, ◌++◌, arith, All,
}
use irc_eew.Base.Bytes.{Bytes, codes}
use irc_eew.Decoder.Generator.Patterns.{skip_blanks, skip_gap, expect, open_match, matches_open}
use irc_eew.Decoder.Generator.{find_open, read_behind, extract_table, extracted}
use irc_eew.Decoder.Generator.Rows.{IsBlank, skip_blanks-append, skip_blanks-All, expect-append}
use irc_eew.Decoder.Generator.Lines.{
  Line, IsLine, spell_lines, spell_closing, put_all, read_entries-spell_lines,
}

-- The blanks of an opening line; there is one at least before the name.
pub record Opening : Type 0 where
  pub lead : Bytes
  pub gap : Bytes
  pub before_equals : Bytes
  pub after_equals : Bytes
  pub trail : Bytes

pub record IsOpening (o : Opening) : Type 0 where
  pub lead_blank : All IsBlank o.lead
  pub gap_blank : All IsBlank o.gap
  pub gap_some : o.gap ≢ []
  pub before_blank : All IsBlank o.before_equals
  pub after_blank : All IsBlank o.after_equals
  pub trail_blank : All IsBlank o.trail

abbrev pub spell_opening : Bytes → Opening → Bytes
spell_opening name o =
    o.lead
    ++ (codes "my"
        ++ (o.gap
            ++ b'%'
              ∷ (name
                  ++ (o.before_equals
                      ++ (codes "=" ++ (o.after_equals ++ (codes "(" ++ o.trail)))))))

skip_gap-append :
    (gap s : Bytes) → All IsBlank gap → gap ≢ [] → skip_blanks s ≡ s → skip_gap (gap ++ s) ≡ some s
unfolding skip_gap
skip_gap-append [] s h n e = absurd (n refl)
skip_gap-append (c ∷ gap) s h n e = rw (h.0) (ap some (skip_blanks-append gap s h.1 ∙ e))

-- What stands behind the name.
abbrev behind_name : Opening → Bytes
behind_name o = o.before_equals ++ (codes "=" ++ (o.after_equals ++ (codes "(" ++ o.trail)))

matches_open-spell_opening :
    (name : Bytes) (o : Opening) → IsOpening o → matches_open name (spell_opening name o) ≡ true
unfolding matches_open open_match skip_blanks expect
matches_open-spell_opening name o h =
    rw
      (
        skip_blanks-append o.lead (codes "my" ++ (o.gap ++ b'%' ∷ (name ++ behind_name o)))
            h.lead_blank,
        skip_gap-append o.gap (b'%' ∷ (name ++ behind_name o)) h.gap_blank h.gap_some refl,
        expect-append name (behind_name o),
        skip_blanks-append o.before_equals (codes "=" ++ (o.after_equals ++ (codes "(" ++ o.trail)))
            h.before_blank,
        skip_blanks-append o.after_equals (codes "(" ++ o.trail) h.after_blank,
        skip_blanks-All o.trail h.trail_blank,
      )
      refl

find_open-skip :
    (name : Bytes) (i : ℕ) (before : List Bytes) (l : Bytes) (more : List Bytes)
    → All (λ b. matches_open name b ≡ false) before
    → matches_open name l ≡ true
    → find_open name i (before ++ l ∷ more) ≡ some (suc (i + length before), more)
unfolding find_open
find_open-skip name i [] l more h e = rw (e, find_open) (ap (λ n. some (suc n, more)) (omega arith))
find_open-skip name i (b ∷ before) l more h e =
    rw (h.0, find_open)
      (find_open-skip name (suc i) before l more h.1 e ∙ ap (λ n. some (suc n, more)) (omega arith))

-- extractTable gives back the entries of a table of the Perl source, each key with its last value:
-- the lines are any that are no opening line of the name, then an opening line of the name, then
-- entries, comments and blank lines, then a closing line, and any others. The blanks may be any that
-- the patterns allow; a quoted key and a value hold no quote, a bare key is letters, digits, `_` and
-- `/`, at least one; and a comment ends with a visible byte, before blanks.
pub extract_table-spell_lines :
    (name : Bytes) (before : List Bytes) (o : Opening) (ls : List Line) (lead trail : Bytes)
    (more : List Bytes)
    → All (λ b. matches_open name b ≡ false) before
    → IsOpening o
    → All IsLine ls
    → All IsBlank lead
    → All IsBlank trail
    → extract_table
        (before ++ spell_opening name o ∷ spell_lines ls (spell_closing lead trail ∷ more))
        name
      ≡ extracted (put_all [] ls)
unfolding extract_table
extract_table-spell_lines name before o ls lead trail more hb ho hl h ht =
    ap read_behind (
      find_open-skip name 0 before (spell_opening name o) _ hb
        (matches_open-spell_opening name o ho))
    ∙ read_entries-spell_lines _ [] ls lead trail more hl h ht
