-- ===== src/Decoder/Tables.antt =====
-- internal/decoder/tables_gen.go: the lookup tables. The two tables of place names are put
-- together from parts.
mod Codes
mod Epicenters000
mod Epicenters252
mod Epicenters520
mod Epicenters822
mod Areas100
mod Areas412
use irc_eew.Base.{List, [], ◌∷◌, ◌++◌}
use irc_eew.Base.Bytes.{Bytes}
use Epicenters000.{epicenter_code_from_000}
use Epicenters252.{epicenter_code_from_252}
use Epicenters520.{epicenter_code_from_520}
use Epicenters822.{epicenter_code_from_822}
use Areas100.{area_code_from_100}
use Areas412.{area_code_from_412}
unfoldable pub use Codes.{
  code_type, section, msg_type, ncn_type, shindo, rk1, rk2, rk3, rt1, rc1, rc2, ebiy1, ebiy2,
  warn_type,
}

-- `EpicenterCode`
unfoldable pub epicenter_code : List (Bytes × Bytes)
unfolding epicenter_code_from_000 epicenter_code_from_252 epicenter_code_from_520
    epicenter_code_from_822
epicenter_code =
    epicenter_code_from_000
    ++ (epicenter_code_from_252 ++ (epicenter_code_from_520 ++ (epicenter_code_from_822)))

-- `AreaCode`
unfoldable pub area_code : List (Bytes × Bytes)
unfolding area_code_from_100 area_code_from_412
area_code = area_code_from_100 ++ (area_code_from_412)
