-- ===== src/Viewer/Tests.antt =====
-- The log viewer on small inputs.
use irc_eew.Archive.{file_name, final_path}
use irc_eew.Base.Bytes.{Bytes, codes}
use irc_eew.Base.Decimal.{is_digit}
use mathlib.Core.List.{Perm}
use irc_eew.Base.Strings.{less, sort_by}
use irc_eew.Base.Strings.Order.{Ordered}
use irc_eew.Viewer.Listing.{Dirs, list_handler}
use irc_eew.Viewer.Listing.Rows.{AllMarkup, list_handler-AllMarkup}
use irc_eew.Viewer.Detail.Fields.{IsSafePage, detail_handler-IsSafePage}
use irc_eew.Archive.Memory.{Disk, memory}
use irc_eew.Decoder.Telegram.{Telegram, empty_telegram}
use irc_eew.Viewer.{load_config_from_env}
use irc_eew.Base.Int.{pos}
use irc_eew.Base.{Bool, false, List, [], ◌∷◌, ◌≡◌, refl, map, Option, none, some, true, All, arith}
use irc_eew.Viewer.Detail.Lookup.{telegram_path-final_path}
use irc_eew.Viewer.Detail.{empty_entry, build_ebi_rows, detail_handler, telegram_path}
use irc_eew.Viewer.Detail.Areas.{RowsOf, build_ebi_rows-RowsOf}

id-digits : All (λ c. is_digit c ≡ true) (codes "20110311144616")
id-digits = ground arith

telegram_path-final_path_example :
    telegram_path (codes "/srv") (codes "../eewlog/") (file_name (codes "20110311144616") (pos 12))
    ≡ some (final_path (codes "../eewlog/") (codes "20110311144616") (pos 12))
telegram_path-final_path_example =
    telegram_path-final_path (codes "20110311144616") refl id-digits 12 (codes "srv") b'.'
      (codes "./eewlog/")

abbrev entries : List (Bytes × Bool)
entries =
    (codes "20110311144616.10", false)
    ∷ (codes "20110311144616.9", false)
    ∷ (codes "README", false)
    ∷ (codes "20110311141500.1", false)
    ∷ (codes "20110311141500.2", true)
    ∷ []

-- A disk with one file, in the directory of its day.
abbrev disk : Disk
disk = (codes "eewlog/2011/03/11/20110311144616.1", codes "ND20110311144616 NCN001\n") ∷ []

abbrev no_decoder : Bytes → Option Bytes
no_decoder s = none

detail_handler-IsSafePage_example : IsSafePage (
    detail_handler memory
      (codes "/srv")
      no_decoder
      (load_config_from_env (λ key. []))
      disk
      (codes "20110311144616.1"))
detail_handler-IsSafePage_example =
    detail_handler-IsSafePage memory (codes "/srv") no_decoder (load_config_from_env (λ key. []))
      disk (codes "20110311144616.1")

abbrev one_day : Dirs Disk
one_day = record {
  dir_exists = λ s path. true;
  read_dir = λ s path. some ((codes "20110311144616.1", false) ∷ []);
}

list_handler-AllMarkup_example : AllMarkup (
    list_handler memory one_day sort_by
      (load_config_from_env (λ key. []))
      disk
      (codes "2011")
      (codes "3")
      (codes "11"))
list_handler-AllMarkup_example =
    list_handler-AllMarkup memory one_day sort_by (load_config_from_env (λ key. [])) disk
      (codes "2011") (codes "3") (codes "11")

-- Two areas, the later code first.
abbrev two_areas : Telegram
two_areas = record empty_telegram {
  ebi = (codes "300", empty_entry) ∷ (codes "251", empty_entry) ∷ [];
}

build_ebi_rows-RowsOf_example :
    (areas : List Bytes) × Perm areas (map (λ e. e.0) two_areas.ebi)
    × Ordered less areas
    × RowsOf two_areas.ebi areas (build_ebi_rows two_areas)
build_ebi_rows-RowsOf_example = build_ebi_rows-RowsOf two_areas
