-- ===== src/Viewer/Detail.antt =====
-- internal/eewview/detail.go: the detail view. The template is not modelled; what it is given is.
pub mod Fields
pub mod Areas
pub mod Lookup
use irc_eew.Archive.{Files, cut}
use irc_eew.Base.Bytes.{Bytes, codes, utf8, equal}
use irc_eew.Base.Decimal.{show, is_digit}
use irc_eew.Base.Dict.{get}
use irc_eew.Base.Int.{ℤ, pos}
use irc_eew.Base.Trim.{has_prefix}
use irc_eew.Base.Path.{join, abs}
use irc_eew.Base.Strings.{sort_strings}
use irc_eew.Base.{
  ℕ, zero, suc, Bool, true, false, not, ◌&&◌, ◌||◌, Option, none, some, List, [], ◌∷◌, ◌++◌, ltb,
  leb, ◌==◌, if◌then◌else◌, length, take, drop, get_or,
}
use irc_eew.Decoder.Decode.{decode}
use irc_eew.Decoder.Telegram.{Telegram, EbiEntry, is_cancellation}
use irc_eew.Message.{split_pairs, at, show_tenths}
use irc_eew.Viewer.Summary.{full_date_time, is_final_for_viewer, detail_summary_text}
use irc_eew.Viewer.{Config, escaped, link, decode_shift_jis, mark_control_chars}

abbrev pub all_digits : Bytes → Bool
all_digits [] = true
all_digits (c ∷ s) = is_digit c && all_digits s

-- Behind the id: a dot and one to four digits.
abbrev pub is_number_part : Bytes → Bool
is_number_part [] = false
is_number_part (c ∷ s) = c == b'.' && leb 1 (length s) && leb (length s) 4 && all_digits s

-- `detailNameRE.MatchString`
unfoldable pub is_detail_name : Bytes → Bool
is_detail_name name =
    length (take 14 name) == 14 && all_digits (take 14 name) && is_number_part (drop 14 name)

-- `accSuffix`
pub acc_suffix : Bytes → Bytes
acc_suffix [] = []
acc_suffix (c ∷ label) = b'(' ∷ ((c ∷ label) ++ codes ")")

pub record DetailField : Type 0 where
  pub label : Bytes
  pub value : Bytes

abbrev field : Bytes → Bytes → DetailField
field label value = record { label = label; value = value }

-- `warnNumLabel`
pub warn_num_label : Telegram → Bytes
warn_num_label t =
    utf8 "第"
    ++ (show t.warn_num ++ (utf8 "報" ++ (if is_final_for_viewer t then utf8 "(最終)" else [])))

-- The fields of every telegram.
pub head_fields : Telegram → List DetailField
unfolding warn_num_label
head_fields t =
    field (utf8 "地震ID") (escaped t.eq_id)
    ∷ field (utf8 "通知種類") (escaped t.msg_type)
    ∷ field (utf8 "通知内容") (escaped t.code_type)
    ∷ field (utf8 "通知対象") (escaped t.warn_type)
    ∷ field (utf8 "報数") (escaped (warn_num_label t))
    ∷ field (utf8 "発信官署") (escaped t.section)
    ∷ field (utf8 "検知日時") (escaped (full_date_time t.eq_time))
    ∷ field (utf8 "通知日時") (escaped (full_date_time t.warn_time))
    ∷ []

-- The link to the map, and the name of the place.
pub location : Telegram → Bytes
unfolding acc_suffix
location t =
    link
      (codes "https://maps.google.com/maps?q="
        ++ (show_tenths t.center_lat ++ (codes "," ++ show_tenths t.center_lng)))
      (codes "N" ++ (show_tenths t.center_lat ++ (codes " E" ++ show_tenths t.center_lng)))
    ++ escaped (codes "(" ++ (t.center_name ++ (codes ")" ++ acc_suffix t.center_accurate)))

-- Those of a telegram with a hypocenter.
pub center_fields : Telegram → List DetailField
unfolding location acc_suffix
center_fields t =
    field (utf8 "震央位置") (location t)
    ∷ field (utf8 "震源深度")
        (escaped (show t.center_depth ++ (codes "km" ++ acc_suffix t.depth_accurate)))
    ∷ field (utf8 "マグニチュード")
        (escaped (codes "M" ++ (show_tenths t.magnitude ++ acc_suffix t.magnitude_accurate)))
    ∷ field (utf8 "最大震度") (escaped t.shindo)
    ∷ []

-- Does the page show a place?
abbrev pub has_map : Telegram → Bool
has_map t = not (is_cancellation t) && not (equal t.center_code [])

-- `buildFields`
pub build_fields : Telegram → List DetailField
unfolding head_fields center_fields
build_fields t = if has_map t then head_fields t ++ center_fields t else head_fields t

pub record EbiRow : Type 0 where
  pub name : Bytes
  pub shindo : Bytes
  pub time : Bytes

-- The range of the intensity.
pub row_shindo : EbiEntry → Bytes
row_shindo e =
    let shindo = utf8 "震度" ++ e.shindo1 in
    if equal e.shindo2_code (codes "//")
    then shindo ++ utf8 "以上"
    else if not (equal e.shindo1 e.shindo2)
    then shindo ++ (utf8 "～震度" ++ e.shindo2)
    else shindo

pub row_time : Bytes → Bytes
row_time arrival =
    let p = split_pairs arrival in
    if equal arrival (codes "//////")
    then utf8 "既に到達"
    else if leb 3 (length p)
    then at p 0 ++ (codes ":" ++ (at p 1 ++ (codes ":" ++ at p 2)))
    else arrival

abbrev pub ebi_row : EbiEntry → EbiRow
ebi_row e = record { name = e.name; shindo = row_shindo e; time = row_time e.time }

-- The keys of the map.
abbrev pub areas_of : List (Bytes × EbiEntry) → List Bytes
areas_of [] = []
areas_of ((area, e) ∷ m) = area ∷ areas_of m

-- The zero value of an entry.
abbrev pub empty_entry : EbiEntry
empty_entry = record {
  name = [];
  shindo1 = [];
  shindo1_code = [];
  shindo2 = [];
  shindo2_code = [];
  time = [];
  is_warnded = [];
  is_warnded_code = [];
  arrive = [];
  arrive_code = [];
}

pub rows_for : List (Bytes × EbiEntry) → List Bytes → List EbiRow
unfolding row_shindo row_time
rows_for m [] = []
rows_for m (area ∷ areas) = ebi_row (get_or (get area m) empty_entry) ∷ rows_for m areas

-- `buildEBIRows`
unfoldable pub build_ebi_rows : Telegram → List EbiRow
unfolding rows_for
build_ebi_rows t = rows_for t.ebi (sort_strings (areas_of t.ebi))

-- `telegramPath`, in the working directory `cwd`; `none` is its error.
unfoldable pub telegram_path : Bytes → Bytes → Bytes → Option Bytes
telegram_path cwd data_dir name =
    let full = join (data_dir ∷ cut 0 4 name ∷ cut 4 6 name ∷ cut 6 8 name ∷ name ∷ []) in
    if ltb (length name) 8
    then none
    else if has_prefix (abs cwd full) (abs cwd data_dir)
    then some full
    else none

-- What the template is given.
pub record DetailPageData : Type 0 where
  pub title : Bytes
  pub path_base : Bytes
  pub back_href : Bytes
  pub summary : Bytes
  pub fields : List DetailField
  pub ebi : List EbiRow
  pub has_map : Bool
  -- tenths
  pub lat : ℤ
  -- tenths
  pub lng : ℤ
  pub raw_dump : Bytes

pub data Response : Type 0 where
  invalid_name not_found : Response
  page : DetailPageData → Response

pub page_for : (Bytes → Option Bytes) → Config → Bytes → Bytes → DetailPageData
unfolding build_fields
page_for decoder cfg name raw =
    let t = decode raw in
    record {
      title = detail_summary_text t;
      path_base = escaped cfg.path_base;
      back_href =
          cfg.path_base
          ++ (codes "?year="
              ++ (cut 0 4 name
                  ++ (codes "&month=" ++ (cut 4 6 name ++ (codes "&day=" ++ cut 6 8 name)))));
      summary = detail_summary_text t;
      fields = build_fields t;
      ebi = build_ebi_rows t;
      has_map = has_map t;
      lat = if has_map t then t.center_lat else pos 0;
      lng = if has_map t then t.center_lng else pos 0;
      raw_dump = mark_control_chars (decode_shift_jis decoder raw);
    }

module _ {S : Type 0} (files : Files S) (cwd : Bytes) (decoder : Bytes → Option Bytes) where
  pub page_at : Config → S → Bytes → Option Bytes → Response
  unfolding page_for
  page_at cfg s name none = invalid_name
  page_at cfg s name (some path) = elim (files.read_file s path) [
    | none ↦ not_found
    | some raw ↦ page (page_for decoder cfg name raw)
  ]

  -- `detailHandler`, on the value of `name`.
  unfoldable pub detail_handler : Config → S → Bytes → Response
  unfolding page_at
  detail_handler cfg s name =
      if is_detail_name name
      then page_at cfg s name (telegram_path cwd cfg.data_dir name)
      else invalid_name
