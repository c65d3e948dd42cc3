-- ===== src/Decoder/Generator/Tests.antt =====
-- Tables in the style of Decoder.pm.
use mathlib.Core.List.{reverse, reverse_perm, cons-ne-nil}
use mathlib.Core.List.Perm
use irc_eew.Base.{◌≡◌, refl, true, false, List, [], ◌∷◌, ◌++◌, arith}
use irc_eew.Base.Bytes.{Bytes, codes}
use irc_eew.Base.Split.{split_from}
use irc_eew.Base.Trim.{trim_space, has_prefix, cut}
use irc_eew.Base.Dict.{put}
use irc_eew.Decoder.Generator.Patterns.{
  skip_blanks, expect, skip_gap, scan_key, entry_match, matches_open, span_word,
}
use irc_eew.Decoder.Generator.{
  Table, tables, find_open, read_entries, extract_table, extracted, unparsable, generate,
}
use irc_eew.Decoder.Generator.Lines.{
  Line, entry, remark, blank, put_all, spell_lines, spell_closing,
}
use irc_eew.Decoder.Generator.Order.{generate-walk}
use irc_eew.Decoder.Generator.Source.{Opening, spell_opening, extract_table-spell_lines}

abbrev rt1 : Bytes
rt1 =
    codes
      "my $x;\nmy %rt1 = (\n  '0' => 'land',\n\t1=>'sea'\n  # none\n\n  '/' => 'unset' ,\n);\n1;\n"

rt1_extracted :
    extract_table (split_from [] rt1) (codes "rt1")
    ≡ extracted
        ((codes "0", codes "land") ∷ (codes "1", codes "sea") ∷ (codes "/", codes "unset") ∷ [])
unfolding extract_table split_from matches_open entry_match find_open read_entries scan_key
    span_word skip_gap skip_blanks expect trim_space has_prefix cut put
rt1_extracted = refl

broken_line :
    extract_table (split_from [] (codes "my %rc1 = (\n'a' => \"b\",\n);")) (codes "rc1")
    ≡ unparsable 2 (codes "'a' => \"b\",")
unfolding extract_table split_from matches_open entry_match find_open read_entries scan_key
    span_word skip_gap skip_blanks expect trim_space has_prefix cut put
broken_line = refl

abbrev rows : List Line
rows =
    entry (record {
      lead = codes "  ";
      bare = false;
      key = codes "0";
      before_arrow = codes " ";
      after_arrow = codes " ";
      value = codes "land";
      before_comma = [];
      comma = true;
      trail = [];
    })
    ∷ remark (record { lead = codes "  "; text = codes " non"; last = b'e'; trail = [] })
    ∷ blank []
    ∷ entry (record {
      lead = 9 ∷ [];
      bare = true;
      key = codes "1";
      before_arrow = [];
      after_arrow = [];
      value = codes "sea";
      before_comma = codes " ";
      comma = false;
      trail = 13 ∷ [];
    })
    ∷ []

abbrev opening : Opening
opening = record {
  lead = [];
  gap = codes " ";
  before_equals = codes " ";
  after_equals = codes " ";
  trail = [];
}

extract_table-spell_lines_example :
    extract_table
      ((codes "use strict;" ∷ [])
        ++ spell_opening (codes "rt1") opening
          ∷ spell_lines rows (spell_closing [] (codes " ") ∷ codes "1;" ∷ []))
      (codes "rt1")
    ≡ extracted (put_all [] rows)
unfolding matches_open skip_blanks expect
extract_table-spell_lines_example =
    extract_table-spell_lines (codes "rt1") (codes "use strict;" ∷ []) opening rows [] (codes " ")
      (codes "1;" ∷ []) (refl, tt)
      (record {
        lead_blank = tt;
        gap_blank = (refl, tt);
        gap_some = cons-ne-nil _ _;
        before_blank = (refl, tt);
        after_blank = (refl, tt);
        trail_blank = tt;
      })
      (
        record {
          lead_blank = (refl, (refl, tt));
          key_ok = ground arith;
          before_arrow_blank = (refl, tt);
          after_arrow_blank = (refl, tt);
          value_ok = ground arith;
          before_comma_blank = tt;
          trail_blank = tt;
        },
        (
          ((refl, (refl, tt)), omega arith, tt),
          (
            tt,
            (
              record {
                lead_blank = (refl, tt);
                key_ok = (cons-ne-nil _ _, (refl, tt));
                before_arrow_blank = tt;
                after_arrow_blank = tt;
                value_ok = ground arith;
                before_comma_blank = (refl, tt);
                trail_blank = (refl, tt);
              },
              tt,
            ),
          ),
        ),
      )
      tt (refl, tt)

-- A source with two entries for each table.
abbrev source_of : List Table → Bytes
source_of [] = []
source_of (t ∷ ts) =
    codes "my %"
    ++ (t.perl_name ++ (codes " = (\n'b' => 'two',\n'a' => 'one',\n);\n" ++ source_of ts))

abbrev in_quotes : Bytes → Bytes
in_quotes s = codes "\"" ++ (s ++ codes "\"")

generate-walk_example :
    generate in_quotes (λ ks. ks) (source_of tables) ≡ generate in_quotes reverse (source_of tables)
generate-walk_example =
    generate-walk in_quotes (λ ks. ks) reverse (source_of tables) (λ ks. Perm.rfl) reverse_perm
