-- ===== src/Viewer/Detail/Fields.antt =====
-- The fields of the detail view are safe as HTML.
use irc_eew.Archive.{Files}
use irc_eew.Base.Bytes.{Bytes}
use irc_eew.Base.{All, All-append, Bool-cases, inl, inr, Option, none, some}
use irc_eew.Decoder.Decode.{decode}
use irc_eew.Decoder.Telegram.{Telegram}
use irc_eew.Viewer.Detail.{
  DetailField, head_fields, location, center_fields, has_map, build_fields, is_detail_name,
  telegram_path, Response, invalid_name, not_found, page, page_for, page_at, detail_handler,
}
use irc_eew.Viewer.{Config}
use irc_eew.Viewer.Markup.{IsMarkup, both, escaped-IsMarkup, link-IsMarkup}

abbrev IsSafe : DetailField → Type 0
IsSafe f = IsMarkup f.value

head_fields-IsSafe : (t : Telegram) → All IsSafe (head_fields t)
unfolding head_fields
head_fields-IsSafe t = (
  escaped-IsMarkup _,
  (
    escaped-IsMarkup _,
    (
      escaped-IsMarkup _,
      (
        escaped-IsMarkup _,
        (escaped-IsMarkup _, (escaped-IsMarkup _, (escaped-IsMarkup _, (escaped-IsMarkup _, tt)))),
      ),
    ),
  ),
)

center_fields-IsSafe : (t : Telegram) → All IsSafe (center_fields t)
unfolding center_fields location
center_fields-IsSafe t = (
  both _ _ (link-IsMarkup _ _) (escaped-IsMarkup _),
  (escaped-IsMarkup _, (escaped-IsMarkup _, (escaped-IsMarkup _, tt))),
)

build_fields-IsMarkup : (t : Telegram) → All (λ f. IsMarkup f.value) (build_fields t)
unfolding build_fields
build_fields-IsMarkup t = elim (Bool-cases (has_map t)) [
  | inl e ↦ rw e (
      All-append IsSafe (head_fields t) (center_fields t) (head_fields-IsSafe t)
        (center_fields-IsSafe t))
  | inr e ↦ rw e (head_fields-IsSafe t)
]

-- What a page has as HTML, its base path and the values of its fields, is markup; an error page has
-- none.
abbrev pub IsSafePage : Response → Type 0
IsSafePage invalid_name = Unit
IsSafePage not_found = Unit
IsSafePage (page d) = IsMarkup d.path_base × All (λ f. IsMarkup f.value) d.fields

module _ {S : Type 0} (files : Files S) (cwd : Bytes) (decoder : Bytes → Option Bytes) where
  page_at-IsSafePage :
      (cfg : Config) (s : S) (name : Bytes) (path : Option Bytes)
      → IsSafePage (page_at files cwd decoder cfg s name path)
  unfolding page_at page_for
  page_at-IsSafePage cfg s name none = tt
  page_at-IsSafePage cfg s name (some path) = by_raw (files.read_file s path)
    where
      by_raw :
          (raw : Option Bytes)
          → IsSafePage (elim raw [ none ↦ not_found | some b ↦ page (page_for decoder cfg name b) ])
      by_raw none = tt
      by_raw (some b) = (escaped-IsMarkup cfg.path_base, build_fields-IsMarkup (decode b))

  -- Whatever the name, the files and the configuration, what the detail view gives its template as
  -- HTML, which is the base path and the values of the fields, is made of text in which no tag or
  -- attribute can begin or end, and of links whose address and label are such text.
  pub detail_handler-IsSafePage :
      (cfg : Config) (s : S) (name : Bytes)
      → IsSafePage (detail_handler files cwd decoder cfg s name)
  unfolding detail_handler
  detail_handler-IsSafePage cfg s name = elim (Bool-cases (is_detail_name name)) [
    | inl e ↦ rw e (page_at-IsSafePage cfg s name (telegram_path cwd cfg.data_dir name))
    | inr e ↦ rw e tt
  ]
