-- ===== src/Viewer/Listing.antt =====
-- internal/eewview/list.go: the list view. The directories are a `Dirs`, and the algorithm of
-- `sort.Slice` is an argument; the rows are what the template is given.
pub mod Rows
pub mod Order
pub mod Names
pub mod Day
use irc_eew.Archive.{Files}
use irc_eew.Base.Bytes.{Bytes, codes, utf8, equal}
use irc_eew.Base.Decimal.{dec, show, atoi, is_digit}
use irc_eew.Base.Int.{ℤ, pos, negsuc}
use irc_eew.Base.Path.{join}
use irc_eew.Base.Strings.{less, sort_strings}
use irc_eew.Base.{
  ℕ, zero, suc, Bool, true, false, not, ◌&&◌, Option, none, some, List, [], ◌∷◌, ◌++◌, ltb, leb,
  ◌==◌, if◌then◌else◌, length, is_some,
}
use irc_eew.Decoder.Decode.{decode}
use irc_eew.Viewer.Detail.{all_digits}
use irc_eew.Viewer.Summary.{list_summary_text}
use irc_eew.Viewer.{Config, escaped, link}

-- The number within its bounds.
abbrev pub clamped : ℕ → ℕ → ℤ → ℕ
clamped min max (negsuc n) = min
clamped min max (pos n) = if ltb max n then max else if ltb n min then min else n

-- A text that is no number counts as 0.
abbrev number_or_0 : Option ℤ → ℤ
number_or_0 none = pos 0
number_or_0 (some n) = n

-- `saturate`
unfoldable pub saturate : Bytes → ℕ → ℕ → ℕ
saturate [] min max = 0
saturate (c ∷ raw) min max = clamped min max (number_or_0 (atoi (c ∷ raw)))

-- The digits in front, and what stands behind them.
abbrev pub digits_run : Bytes → Bytes × Bytes
digits_run [] = ([], [])
digits_run (c ∷ s) =
    let run = digits_run s in if is_digit c then (c ∷ run.0, run.1) else ([], c ∷ s)

-- The number behind the dot, if it is one and fits.
abbrev pub number_of : Bytes → Option ℤ
number_of [] = none
number_of (c ∷ s) = if all_digits (c ∷ s) then atoi (c ∷ s) else none

abbrev pub with_id : Bytes → Option ℤ → Option (Bytes × ℤ)
with_id [] n = none
with_id (c ∷ id) none = none
with_id (c ∷ id) (some n) = some (c ∷ id, n)

abbrev pub name_parts : Bytes × Bytes → Option (Bytes × ℤ)
name_parts (id, []) = none
name_parts (id, c ∷ s) = if c == b'.' then with_id id (number_of s) else none

-- `splitEEWName`; `none` is its `ok` being false.
unfoldable pub split_eew_name : Bytes → Option (Bytes × ℤ)
split_eew_name name = name_parts (digits_run name)

-- `<` on integers.
abbrev pub less_int : ℤ → ℤ → Bool
less_int (pos m) (pos n) = ltb m n
less_int (pos m) (negsuc n) = false
less_int (negsuc m) (pos n) = true
less_int (negsuc m) (negsuc n) = ltb n m

abbrev pub less_parts : Bytes → Bytes → Option (Bytes × ℤ) → Option (Bytes × ℤ) → Bool
less_parts a b (some (id_a, num_a)) (some (id_b, num_b)) =
    if equal id_a id_b then less_int num_a num_b else less a b
less_parts a b _ _ = less a b

-- `lessEEWFile`
unfoldable pub less_eew_file : Bytes → Bytes → Bool
less_eew_file a b = less_parts a b (split_eew_name a) (split_eew_name b)

-- Calls of `os`: `dirExists`, and `ReadDir`, whose entries are names and whether they are
-- directories.
pub record Dirs (S : Type 0) : Type 0 where
  pub dir_exists : S → Bytes → Bool
  pub read_dir : S → Bytes → Option (List (Bytes × Bool))

digit_first : Bytes → Bool
digit_first [] = false
digit_first (c ∷ name) = is_digit c

abbrev numeric_names : List (Bytes × Bool) → List Bytes
numeric_names [] = []
numeric_names ((name, is_dir) ∷ entries) =
    if is_dir && digit_first name then name ∷ numeric_names entries else numeric_names entries

-- `numericSubdirs`
pub numeric_subdirs : {S : Type 0} → Dirs S → S → Bytes → List Bytes
unfolding digit_first
numeric_subdirs dirs s path = elim (dirs.read_dir s path) [
  | none ↦ []
  | some entries ↦ sort_strings (numeric_names entries)
]

-- The files of a day whose names are those of telegrams.
pub telegram_names : List (Bytes × Bool) → List Bytes
telegram_names [] = []
telegram_names ((name, is_dir) ∷ entries) =
    if not is_dir && is_some (split_eew_name name)
    then name ∷ telegram_names entries
    else telegram_names entries

-- The names on the page of a day, by the algorithm of `sort.Slice`.
unfoldable pub day_names :
    ((Bytes → Bytes → Bool) → List Bytes → List Bytes) → List (Bytes × Bool) → List Bytes
unfolding telegram_names
day_names sort_slice entries = sort_slice less_eew_file (telegram_names entries)

-- `%0kd` of a number that is not negative.
abbrev pub pad : ℕ → Bytes → Bytes
pad zero s = s
pad (suc k) s = let rest = pad k s in if leb (suc k) (length s) then s else b'0' ∷ rest

abbrev pub padded : ℕ → ℕ → Bytes
padded k n = pad k (dec n)

-- A row for each name that is a number.
pub rows_of : (ℤ → Bytes) → List Bytes → List Bytes
rows_of row [] = []
rows_of row (name ∷ names) = elim (atoi name) [
  | none ↦ rows_of row names
  | some n ↦ row n ∷ rows_of row names
]

abbrev query_year : Config → Bytes → Bytes
query_year cfg year = cfg.path_base ++ (codes "?year=" ++ year)

abbrev query_month : Config → Bytes → Bytes → Bytes
query_month cfg year month = query_year cfg year ++ (codes "&month=" ++ month)

-- The rows of the years, the months of a year, and the days of a month.
pub year_rows : Config → List Bytes → List Bytes
unfolding rows_of
year_rows cfg names = rows_of (λ n. link (query_year cfg (show n)) (show n ++ utf8 "年")) names

pub month_rows : Config → ℕ → List Bytes → List Bytes
unfolding rows_of
month_rows cfg year names =
    let prefix = link (query_year cfg (dec year)) (dec year ++ utf8 "年") in
    rows_of (λ n. prefix ++ link (query_month cfg (dec year) (show n)) (show n ++ utf8 "月")) names

pub day_rows : Config → ℕ → ℕ → List Bytes → List Bytes
unfolding rows_of
day_rows cfg year month names =
    let prefix =
      link (query_year cfg (dec year)) (dec year ++ utf8 "年")
      ++ link (query_month cfg (dec year) (dec month)) (dec month ++ utf8 "月") in
    rows_of
      (λ n.
        prefix
        ++ link (query_month cfg (dec year) (dec month) ++ (codes "&day=" ++ show n))
            (show n ++ utf8 "日"))
      names

pub data Listed : Type 0 where
  -- the directory of the day cannot be read
  internal_error : Listed
  rows : List Bytes → Listed

module _ {S : Type 0} (files : Files S) (dirs : Dirs S) where
  -- The rows of the telegrams that can be read.
  pub telegram_rows : Config → S → Bytes → Bytes → List Bytes → List Bytes
  telegram_rows cfg s day_dir prefix [] = []
  telegram_rows cfg s day_dir prefix (name ∷ names) =
      let rest = telegram_rows cfg s day_dir prefix names in
      elim (files.read_file s (join (day_dir ∷ name ∷ []))) [
        | none ↦ rest
        | some body ↦
            (escaped prefix
              ++ (codes " "
                  ++ (link (cfg.path_base ++ (cfg.viewer_path ++ (codes "?name=" ++ name)))
                        (utf8 "■")
                      ++ (codes " " ++ escaped (list_summary_text (decode body))))))
            ∷ rest
      ]

  module _ (sort_slice : (Bytes → Bytes → Bool) → List Bytes → List Bytes) where
    pub day_list : Config → S → ℕ → ℕ → ℕ → Bytes → Listed
    unfolding telegram_rows
    day_list cfg s year month day day_dir = elim (dirs.read_dir s day_dir) [
      | none ↦ internal_error
      | some entries ↦
          let prefix =
            dec year ++ (utf8 "年" ++ (dec month ++ (utf8 "月" ++ (dec day ++ utf8 "日")))) in
          rows (telegram_rows cfg s day_dir prefix (day_names sort_slice entries))
    ]

    -- A day, in a month that is there.
    pub list_in_month : Config → S → ℕ → ℕ → ℕ → Bytes → Listed
    unfolding day_rows day_list
    list_in_month cfg s year month day month_dir =
        let day_dir = join (cfg.data_dir ∷ padded 4 year ∷ padded 2 month ∷ padded 2 day ∷ []) in
        if dirs.dir_exists s day_dir
        then day_list cfg s year month day day_dir
        else rows (day_rows cfg year month (numeric_subdirs dirs s month_dir))

    -- A month, in a year that is there.
    pub list_in_year : Config → S → ℕ → ℕ → ℕ → Bytes → Listed
    unfolding month_rows list_in_month
    list_in_year cfg s year month day year_dir =
        let month_dir = join (cfg.data_dir ∷ padded 4 year ∷ padded 2 month ∷ []) in
        if dirs.dir_exists s month_dir
        then list_in_month cfg s year month day month_dir
        else rows (month_rows cfg year (numeric_subdirs dirs s year_dir))

    -- `listHandler`, on the values of `year`, `month` and `day`.
    pub list_handler : Config → S → Bytes → Bytes → Bytes → Listed
    unfolding year_rows list_in_year
    list_handler cfg s raw_year raw_month raw_day =
        let year = saturate raw_year 2000 3000 in
        let month = saturate raw_month 1 12 in
        let day = saturate raw_day 1 31 in
        let year_dir = join (cfg.data_dir ∷ dec year ∷ []) in
        if dirs.dir_exists s year_dir
        then list_in_year cfg s year month day year_dir
        else rows (year_rows cfg (numeric_subdirs dirs s cfg.data_dir))
