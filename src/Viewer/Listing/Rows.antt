-- ===== src/Viewer/Listing/Rows.antt =====
-- The rows of the list view are safe as HTML.
use irc_eew.Archive.{Files}
use irc_eew.Base.Bytes.{Bytes, codes, utf8}
use irc_eew.Base.Decimal.{dec, atoi}
use irc_eew.Base.Int.{ℤ}
use irc_eew.Base.Path.{join}
use irc_eew.Base.{
  ℕ, Bool, true, false, Option, none, some, List, [], ◌∷◌, ◌++◌, if◌then◌else◌, All, arith,
}
use irc_eew.Viewer.Listing.{
  Dirs, Listed, internal_error, rows, rows_of, year_rows, month_rows, day_rows, telegram_rows,
  day_names, day_list, list_in_month, list_in_year, list_handler, saturate, padded, numeric_subdirs,
}
use irc_eew.Viewer.Markup.{IsMarkup, inert, both, escaped-IsMarkup, link-IsMarkup}
use irc_eew.Viewer.Summary.{list_summary_text}
use irc_eew.Decoder.Decode.{decode}
use irc_eew.Viewer.{Config, escaped, link}

-- Every row of an answer.
abbrev pub AllMarkup : Listed → Type 0
AllMarkup internal_error = Unit
AllMarkup (rows rs) = All IsMarkup rs

if-AllMarkup :
    (b : Bool) (x : Listed) (rs : List Bytes)
    → AllMarkup x
    → All IsMarkup rs
    → AllMarkup (if b then x else rows rs)
if-AllMarkup true x rs h k = h
if-AllMarkup false x rs h k = k

rows_of-IsMarkup :
    (row : ℤ → Bytes) (names : List Bytes)
    → ((n : ℤ) → IsMarkup (row n))
    → All IsMarkup (rows_of row names)
unfolding rows_of
rows_of-IsMarkup row [] h = tt
rows_of-IsMarkup row (name ∷ names) h = by_number (atoi name) (rows_of-IsMarkup row names h)
  where
    by_number :
        (o : Option ℤ)
        → All IsMarkup (rows_of row names)
        → All IsMarkup (elim o [ none ↦ rows_of row names | some n ↦ row n ∷ rows_of row names ])
    by_number none rest = rest
    by_number (some n) rest = (h n, rest)

year_rows-IsMarkup : (cfg : Config) (names : List Bytes) → All IsMarkup (year_rows cfg names)
unfolding year_rows
year_rows-IsMarkup cfg names = rows_of-IsMarkup _ names (λ n. link-IsMarkup _ _)

month_rows-IsMarkup :
    (cfg : Config) (year : ℕ) (names : List Bytes) → All IsMarkup (month_rows cfg year names)
unfolding month_rows
month_rows-IsMarkup cfg year names =
    rows_of-IsMarkup _ names (λ n. both _ _ (link-IsMarkup _ _) (link-IsMarkup _ _))

day_rows-IsMarkup :
    (cfg : Config) (year month : ℕ) (names : List Bytes)
    → All IsMarkup (day_rows cfg year month names)
unfolding day_rows
day_rows-IsMarkup cfg year month names =
    rows_of-IsMarkup _ names
      (λ n. both _ _ (both _ _ (link-IsMarkup _ _) (link-IsMarkup _ _)) (link-IsMarkup _ _))

space-IsMarkup : IsMarkup (codes " ")
space-IsMarkup = inert (codes " ") (omega arith)

module _ {S : Type 0} (files : Files S) (dirs : Dirs S) where
  telegram_rows-IsMarkup :
      (cfg : Config) (s : S) (day_dir prefix : Bytes) (names : List Bytes)
      → All IsMarkup (telegram_rows files dirs cfg s day_dir prefix names)
  unfolding telegram_rows
  telegram_rows-IsMarkup cfg s day_dir prefix [] = tt
  telegram_rows-IsMarkup cfg s day_dir prefix (name ∷ names) =
      by_body (files.read_file s (join (day_dir ∷ name ∷ [])))
        (telegram_rows-IsMarkup cfg s day_dir prefix names)
    where
      rest : List Bytes
      rest = telegram_rows files dirs cfg s day_dir prefix names

      href : Bytes
      href = cfg.path_base ++ (cfg.viewer_path ++ (codes "?name=" ++ name))

      by_body :
          (o : Option Bytes)
          → All IsMarkup rest
          → All IsMarkup (elim o [
            | none ↦ rest
            | some body ↦
                (escaped prefix
                  ++ (codes " "
                      ++ (link href (utf8 "■")
                          ++ (codes " " ++ escaped (list_summary_text (decode body))))))
                ∷ rest
          ])
      by_body none h = h
      by_body (some body) h = (
        both _ _ (escaped-IsMarkup prefix) (
            both _ _ space-IsMarkup (
              both _ _ (link-IsMarkup href (utf8 "■"))
                (both _ _ space-IsMarkup (escaped-IsMarkup _)))),
        h,
      )

  module _ (sort_slice : (Bytes → Bytes → Bool) → List Bytes → List Bytes) where
    day_list-AllMarkup :
        (cfg : Config) (s : S) (year month day : ℕ) (day_dir : Bytes)
        → AllMarkup (day_list files dirs sort_slice cfg s year month day day_dir)
    unfolding day_list
    day_list-AllMarkup cfg s year month day day_dir = by_entries (dirs.read_dir s day_dir)
      where
        prefix : Bytes
        prefix = dec year ++ (utf8 "年" ++ (dec month ++ (utf8 "月" ++ (dec day ++ utf8 "日"))))

        by_entries :
            (o : Option (List (Bytes × Bool)))
            → AllMarkup (elim o [
              | none ↦ internal_error
              | some entries ↦
                  rows
                    (telegram_rows files dirs cfg s day_dir prefix (day_names sort_slice entries))
            ])
        by_entries none = tt
        by_entries (some entries) = telegram_rows-IsMarkup cfg s day_dir prefix _

    list_in_month-AllMarkup :
        (cfg : Config) (s : S) (year month day : ℕ) (month_dir : Bytes)
        → AllMarkup (list_in_month files dirs sort_slice cfg s year month day month_dir)
    unfolding list_in_month
    list_in_month-AllMarkup cfg s year month day month_dir =
        if-AllMarkup (dirs.dir_exists s day_dir)
          (day_list files dirs sort_slice cfg s year month day day_dir)
          (day_rows cfg year month (numeric_subdirs dirs s month_dir))
          (day_list-AllMarkup cfg s year month day day_dir)
          (day_rows-IsMarkup cfg year month (numeric_subdirs dirs s month_dir))
      where
        day_dir : Bytes
        day_dir = join (cfg.data_dir ∷ padded 4 year ∷ padded 2 month ∷ padded 2 day ∷ [])

    list_in_year-AllMarkup :
        (cfg : Config) (s : S) (year month day : ℕ) (year_dir : Bytes)
        → AllMarkup (list_in_year files dirs sort_slice cfg s year month day year_dir)
    unfolding list_in_year
    list_in_year-AllMarkup cfg s year month day year_dir =
        if-AllMarkup (dirs.dir_exists s month_dir)
          (list_in_month files dirs sort_slice cfg s year month day month_dir)
          (month_rows cfg year (numeric_subdirs dirs s year_dir))
          (list_in_month-AllMarkup cfg s year month day month_dir)
          (month_rows-IsMarkup cfg year (numeric_subdirs dirs s year_dir))
      where
        month_dir : Bytes
        month_dir = join (cfg.data_dir ∷ padded 4 year ∷ padded 2 month ∷ [])

    -- Whatever the query, the files and their names, each row that the list view gives its
    -- template as HTML is made of text in which no tag or attribute can begin or end, and of links
    -- whose address and label are such text.
    pub list_handler-AllMarkup :
        (cfg : Config) (s : S) (raw_year raw_month raw_day : Bytes)
        → AllMarkup (list_handler files dirs sort_slice cfg s raw_year raw_month raw_day)
    unfolding list_handler
    list_handler-AllMarkup cfg s raw_year raw_month raw_day =
        if-AllMarkup (dirs.dir_exists s year_dir)
          (list_in_year files dirs sort_slice cfg s year month day year_dir)
          (year_rows cfg (numeric_subdirs dirs s cfg.data_dir))
          (list_in_year-AllMarkup cfg s year month day year_dir)
          (year_rows-IsMarkup cfg (numeric_subdirs dirs s cfg.data_dir))
      where
        year : ℕ
        year = saturate raw_year 2000 3000

        month : ℕ
        month = saturate raw_month 1 12

        day : ℕ
        day = saturate raw_day 1 31

        year_dir : Bytes
        year_dir = join (cfg.data_dir ∷ dec year ∷ [])
