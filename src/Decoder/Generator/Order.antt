-- ===== src/Decoder/Generator/Order.antt =====
-- The order in which `range` walks over a map does not show in the generated file.
use mathlib.Core.List.{Perm}
use mathlib.Core.List.Perm
use irc_eew.Base.{◌≡◌, refl, ◌∙◌, ap, List, [], ◌∷◌, ◌++◌}
use irc_eew.Base.Bytes.{Bytes}
use irc_eew.Base.Split.{split_from}
use irc_eew.Base.Strings.Unique.{sort_strings-Perm}
use irc_eew.Decoder.Generator.{
  Table, Extracted, extracted, Generated, extract_table, keys_of, table_text, on_extracted,
  generate_from, generate, tables, preamble,
}

-- `range` gives each key once.
abbrev pub Walks : (List Bytes → List Bytes) → Type 0
Walks walk = (ks : List Bytes) → Perm (walk ks) ks

on_extracted-same :
    (t : Table) (x : Extracted) (next next' : List (Bytes × Bytes) → Generated)
    → ((m : List (Bytes × Bytes)) → next m ≡ next' m)
    → on_extracted t x next ≡ on_extracted t x next'
on_extracted-same t (extracted (e ∷ m)) next next' h = h (e ∷ m)
on_extracted-same t _ next next' h = refl

module _ (quote : Bytes → Bytes) (walk walk' : List Bytes → List Bytes) where
  table_text-walk :
      (t : Table) (m : List (Bytes × Bytes))
      → Walks walk
      → Walks walk'
      → table_text quote walk t m ≡ table_text quote walk' t m
  unfolding table_text
  table_text-walk t m h h' =
      rw (sort_strings-Perm (Perm.trans (h (keys_of m)) (Perm.symm (h' (keys_of m))))) refl

  generate_from-walk :
      (out : Bytes) (lines : List Bytes) (ts : List Table)
      → Walks walk
      → Walks walk'
      → generate_from quote walk out lines ts ≡ generate_from quote walk' out lines ts
  unfolding generate_from
  generate_from-walk out lines [] h h' = refl
  generate_from-walk out lines (t ∷ ts) h h' =
      on_extracted-same t (extract_table lines t.perl_name)
        (λ m. generate_from quote walk (out ++ table_text quote walk t m) lines ts)
        (λ m. generate_from quote walk' (out ++ table_text quote walk' t m) lines ts)
        (λ m.
          ap (λ text. generate_from quote walk (out ++ text) lines ts) (table_text-walk t m h h')
          ∙ generate_from-walk (out ++ table_text quote walk' t m) lines ts h h')

  -- What the generator makes of the Perl source, the file or the error, is the same in whichever
  -- orders `range` gives the keys of the maps, if it gives each key once.
  pub generate-walk :
      (src : Bytes) → Walks walk → Walks walk' → generate quote walk src ≡ generate quote walk' src
  unfolding generate
  generate-walk src h h' = generate_from-walk preamble (split_from [] src) tables h h'
