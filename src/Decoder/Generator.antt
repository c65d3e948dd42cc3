-- ===== src/Decoder/Generator.antt =====
-- internal/decoder/gen/main.go: the generator of the lookup tables, which reads them from the Perl
-- source.
pub mod Rows
pub mod Lines
pub mod Source
pub mod Order
mod Tests
pub mod Patterns
use mathlib.Core.Option
use irc_eew.Base.{
  ℕ, zero, suc, ◌+◌, Bool, true, false, ◌&&◌, ◌||◌, Option, none, some, List, [], ◌∷◌, ◌++◌, map,
  leb, ◌==◌, if◌then◌else◌, length, get_or, is_some, ◌>>=◌,
}
use irc_eew.Base.Bytes.{Bytes, codes, equal}
use irc_eew.Base.Decimal.{dec, is_digit}
use irc_eew.Base.Dict.{get, put}
use irc_eew.Base.Split.{split_from}
use irc_eew.Base.Strings.{sort_strings}
use irc_eew.Base.Trim.{trim_space, has_prefix, cut}
use irc_eew.Decoder.Generator.Patterns.{
  is_blank, is_word, skip_blanks, skip_gap, expect, is_end, ended, open_match, matches_open,
  span_word, quoted_text, bare_key, scan_key, skip_comma, entry_match,
}

-- The name of a Perl hash, and the Go name of its table.
pub record Table : Type 0 where
  pub perl_name : Bytes
  pub go_name : Bytes

abbrev table : Bytes → Bytes → Table
table perl go = record { perl_name = perl; go_name = go }

-- `tables`
abbrev pub tables : List Table
tables =
    table (codes "code_type") (codes "CodeType")
    ∷ table (codes "section") (codes "Section")
    ∷ table (codes "msg_type") (codes "MsgType")
    ∷ table (codes "NCN_type") (codes "NCNType")
    ∷ table (codes "shindo") (codes "Shindo")
    ∷ table (codes "rk1") (codes "RK1")
    ∷ table (codes "rk2") (codes "RK2")
    ∷ table (codes "rk3") (codes "RK3")
    ∷ table (codes "rt1") (codes "RT1")
    ∷ table (codes "rc1") (codes "RC1")
    ∷ table (codes "rc2") (codes "RC2")
    ∷ table (codes "ebiy1") (codes "EBIY1")
    ∷ table (codes "ebiy2") (codes "EBIY2")
    ∷ table (codes "warn_type") (codes "WarnType")
    ∷ table (codes "epicenter_code") (codes "EpicenterCode")
    ∷ table (codes "area_code") (codes "AreaCode")
    ∷ []

-- What `extractTable` returns: one of its three errors, of which that of a line has its number and
-- its text, or the entries.
pub data Extracted : Type 0 where
  no_opening : Extracted
  unparsable : ℕ → Bytes → Extracted
  no_closing : Extracted
  extracted : List (Bytes × Bytes) → Extracted

-- The loop for the opening line: the lines behind it, and the index of the first.
unfoldable pub find_open : Bytes → ℕ → List Bytes → Option (ℕ × List Bytes)
find_open name i [] = none
find_open name i (l ∷ ls) = elim (matches_open name l) [
  | true ↦ some (suc i, ls)
  | false ↦ find_open name (suc i) ls
]

-- The bare key, if the quoted one is empty.
abbrev pub key_of : Bytes → Bytes → Bytes
key_of [] bare = bare
key_of (c ∷ quoted) bare = c ∷ quoted

-- Blank, or a comment.
abbrev pub is_skipped : Bytes → Bool
is_skipped trimmed = is_end trimmed || has_prefix trimmed (codes "#")

-- The loop over the lines from an index on.
unfoldable pub read_entries : ℕ → List (Bytes × Bytes) → List Bytes → Extracted
read_entries i m [] = no_closing
read_entries i m (l ∷ ls) = elim (equal (trim_space l) (codes ");")) [
  | true ↦ extracted m
  | false ↦ elim (entry_match l) [
    | some (quoted, bare, value) ↦ read_entries (suc i) (put (key_of quoted bare) value m) ls
    | none ↦ elim (is_skipped (trim_space l)) [
      | true ↦ read_entries (suc i) m ls
      | false ↦ unparsable (suc i) l
    ]
  ]
]

abbrev pub read_behind : Option (ℕ × List Bytes) → Extracted
read_behind none = no_opening
read_behind (some (i, ls)) = read_entries i [] ls

-- `extractTable`
unfoldable pub extract_table : List Bytes → Bytes → Extracted
unfolding find_open read_entries
extract_table lines name = read_behind (find_open name 0 lines)

-- What is printed, or the table that has an error or no entries.
pub data Generated : Type 0 where
  failed : Bytes → Extracted → Generated
  no_entries : Bytes → Generated
  printed : Bytes → Generated

abbrev pub keys_of : List (Bytes × Bytes) → List Bytes
keys_of [] = []
keys_of ((k, v) ∷ m) = k ∷ keys_of m

-- The head of the file.
abbrev pub preamble : Bytes
preamble =
    codes
      "// Code generated by internal/decoder/gen from lib/Earthquake/EEW/Decoder.pm. DO NOT EDIT."
    ++ 10
      ∷ (codes "// Regenerate with: go run ./internal/decoder/gen "
          ++ (codes "-in <path-to-Decoder.pm> -out internal/decoder/tables_gen.go"
              ++ 10 ∷ 10 ∷ (codes "package decoder" ++ 10 ∷ 10 ∷ [])))

-- The checks of the loop over the tables; `next` goes on with the entries.
abbrev pub on_extracted : Table → Extracted → (List (Bytes × Bytes) → Generated) → Generated
on_extracted t no_opening next = failed t.perl_name no_opening
on_extracted t (unparsable i l) next = failed t.perl_name (unparsable i l)
on_extracted t no_closing next = failed t.perl_name no_closing
on_extracted t (extracted []) next = no_entries t.perl_name
on_extracted t (extracted (e ∷ m)) next = next (e ∷ m)

-- `%q` is `quote`, and `walk` is the order in which `range` gives the keys of a map.
module _ (quote : Bytes → Bytes) (walk : List Bytes → List Bytes) where
  -- `\t%q: %q,\n`
  abbrev pub row : Bytes → Bytes → Bytes
  row k v = 9 ∷ (quote k ++ (codes ": " ++ (quote v ++ (codes "," ++ 10 ∷ []))))

  abbrev pub rows : List (Bytes × Bytes) → List Bytes → Bytes
  rows m [] = []
  rows m (k ∷ ks) = row k (get_or (get k m) []) ++ rows m ks

  abbrev pub sorted_rows : List (Bytes × Bytes) → Bytes
  sorted_rows m = rows m (sort_strings (walk (keys_of m)))

  -- What the loop prints of one table.
  unfoldable pub table_text : Table → List (Bytes × Bytes) → Bytes
  table_text t m =
      codes "// "
      ++ (t.go_name
          ++ (codes " has "
              ++ (dec (length m)
                  ++ (codes " entries, extracted from Perl %"
                      ++ (t.perl_name
                          ++ (codes "."
                              ++ 10
                                ∷ (codes "var "
                                    ++ (t.go_name
                                        ++ (codes " = map[string]string{"
                                            ++ 10
                                              ∷ (sorted_rows m
                                                  ++ (codes "}" ++ 10 ∷ 10 ∷ [])))))))))))

  -- The loop over the tables, with what is printed so far.
  unfoldable pub generate_from : Bytes → List Bytes → List Table → Generated
  unfolding table_text
  generate_from out lines [] = printed out
  generate_from out lines (t ∷ ts) =
      on_extracted t (extract_table lines t.perl_name)
        (λ m. generate_from (out ++ table_text t m) lines ts)

  -- The file, from the text of Decoder.pm.
  unfoldable pub generate : Bytes → Generated
  unfolding generate_from split_from
  generate src = generate_from preamble (split_from [] src) tables

  -- The exit status, and the file that is written, with its path; `write` says if that succeeds.
  abbrev pub write_out : (Bytes → Bytes → Bool) → Bytes → Generated → ℕ × Option (Bytes × Bytes)
  write_out write out (printed text) = (if write out text then 0 else 1, some (out, text))
  write_out write out (failed name e) = (1, none)
  write_out write out (no_entries name) = (1, none)

  abbrev pub on_source : (Bytes → Bytes → Bool) → Bytes → Option Bytes → ℕ × Option (Bytes × Bytes)
  on_source write out none = (1, none)
  on_source write out (some src) = write_out write out (generate src)

  -- `main`, with its two flags; `read` is `os.ReadFile`.
  unfoldable pub main :
      (Bytes → Option Bytes) → (Bytes → Bytes → Bool) → Bytes → Bytes → ℕ × Option (Bytes × Bytes)
  unfolding generate
  main read write inp out =
      if is_end inp || is_end out then (1, none) else on_source write out (read inp)
