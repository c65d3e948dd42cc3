-- ===== src/Viewer/Detail/Areas.antt =====
-- The rows of the areas in the detail view.
use mathlib.Core.List.{Perm}
use irc_eew.Base.Bytes.{Bytes, equal, equal_refl}
use irc_eew.Base.Dict.{get}
use irc_eew.Base.Strings.Insertion.{sort_by-All, sort_by-Sorts}
use irc_eew.Base.Strings.Order.{Ordered, less-IsOrdering}
use irc_eew.Base.Strings.{less, sort_strings}
use irc_eew.Base.{
  get_or, All-map, Bool-cases, inl, inr, ◌≡◌, refl, ap, map, subst, some, List, [], ◌∷◌, All,
}
use irc_eew.Decoder.Telegram.{Telegram, EbiEntry}
use irc_eew.Viewer.Detail.{EbiRow, ebi_row, empty_entry, areas_of, rows_for, build_ebi_rows}

All-unit : (ss : List Bytes) → All {0, 0} (λ s. Unit) ss
All-unit [] = tt
All-unit (s ∷ ss) = (tt, All-unit ss)

-- Each row is that of the entry of its area.
abbrev pub RowsOf : List (Bytes × EbiEntry) → List Bytes → List EbiRow → Type 0
RowsOf m [] [] = Unit
RowsOf m (area ∷ areas) (row ∷ rows) =
    ((e : EbiEntry) × (get area m ≡ some e) × (row ≡ ebi_row e)) × RowsOf m areas rows
RowsOf m _ _ = ⊥

-- The areas of a map have an entry.
abbrev Known : List (Bytes × EbiEntry) → Bytes → Type 0
Known m area = (e : EbiEntry) × (get area m ≡ some e)

rows_for-RowsOf :
    (m : List (Bytes × EbiEntry)) (areas : List Bytes)
    → All (Known m) areas
    → RowsOf m areas (rows_for m areas)
unfolding rows_for
rows_for-RowsOf m [] h = tt
rows_for-RowsOf m (area ∷ areas) ((e, f), h) =
    ((e, f, ap (λ o. ebi_row (get_or o empty_entry)) f), rows_for-RowsOf m areas h)

-- An area that has an entry has one when there is one more.
Known-cons :
    (j : Bytes) (v : EbiEntry) (m : List (Bytes × EbiEntry)) (area : Bytes)
    → Known m area
    → Known ((j, v) ∷ m) area
unfolding get
Known-cons j v m area (e, f) = elim (Bool-cases (equal j area)) [
  | inl same ↦ (v, rw same refl)
  | inr other ↦ (e, rw other f)
]

areas_of-Known : (m : List (Bytes × EbiEntry)) → All (Known m) (areas_of m)
unfolding get
areas_of-Known [] = tt
areas_of-Known ((area, e) ∷ m) =
    ((e, rw (equal_refl area) refl), All-map (Known-cons area e m) (areas_of m) (areas_of-Known m))

areas_of-map : (m : List (Bytes × EbiEntry)) → areas_of m ≡ map (λ e. e.0) m
areas_of-map [] = refl
areas_of-map ((area, e) ∷ m) = ap (◌∷◌ area) (areas_of-map m)

-- The detail view has one row for each entry of the telegram's map, in the order of their area codes,
-- and each row is that of the entry that the map holds for its area.
pub build_ebi_rows-RowsOf :
    (t : Telegram)
    → (areas : List Bytes) × Perm areas (map (λ e. e.0) t.ebi)
      × Ordered less areas
      × RowsOf t.ebi areas (build_ebi_rows t)
unfolding build_ebi_rows
build_ebi_rows-RowsOf t = (
  sort_strings (areas_of t.ebi),
  subst (Perm (sort_strings (areas_of t.ebi))) (areas_of-map t.ebi)
      (sort_by-Sorts.permutes less (areas_of t.ebi)),
  sort_by-Sorts.ordered (λ s. Unit) less (areas_of t.ebi) less-IsOrdering
      (All-unit (areas_of t.ebi)),
  rows_for-RowsOf t.ebi (sort_strings (areas_of t.ebi))
      (sort_by-All (Known t.ebi) less (areas_of t.ebi) (areas_of-Known t.ebi)),
)
