-- ===== src/Decoder/Tables/Codes.antt =====
-- internal/decoder/tables_gen.go: the small lookup tables, entry by entry.
use irc_eew.Base.{List, [], ◌∷◌}
use irc_eew.Base.Bytes.{Bytes, codes, utf8}

-- `CodeType`
unfoldable pub code_type : List (Bytes × Bytes)
unfolding utf8
code_type =
    (codes "35", utf8 "最大予測震度のみ")
    ∷ (codes "36", utf8 "M、最大予測震度及び主要動到達予測時刻")
    ∷ (codes "37", utf8 "M、最大予測震度及び主要動到達予測時刻（確度大）")
    ∷ (codes "39", utf8 "キャンセル報")
    ∷ (codes "47", utf8 "一般向け速報")
    ∷ (codes "48", utf8 "キャンセル報")
    ∷ []

-- `Section`
unfoldable pub section : List (Bytes × Bytes)
unfolding utf8
section =
    (codes "01", utf8 "札幌管区気象台")
    ∷ (codes "02", utf8 "仙台管区気象台")
    ∷ (codes "03", utf8 "気象庁本庁")
    ∷ (codes "04", utf8 "大阪管区気象台")
    ∷ (codes "05", utf8 "福岡管区気象台")
    ∷ (codes "06", utf8 "沖縄気象台")
    ∷ []

-- `MsgType`
unfoldable pub msg_type : List (Bytes × Bytes)
unfolding utf8
msg_type =
    (codes "00", utf8 "通常")
    ∷ (codes "01", utf8 "訓練")
    ∷ (codes "10", utf8 "取り消し")
    ∷ (codes "11", utf8 "訓練取り消し")
    ∷ (codes "20", utf8 "参考/テスト")
    ∷ (codes "30", utf8 "コードのみ配信試験")
    ∷ []

-- `NCNType`
unfoldable pub ncn_type : List (Bytes × Bytes)
unfolding utf8
ncn_type =
    (codes "/", utf8 "未設定時")
    ∷ (codes "0", utf8 "通常")
    ∷ (codes "6", utf8 "情報内容を訂正")
    ∷ (codes "7", utf8 "キャンセル報を誤って発表した場合の訂正")
    ∷ (codes "8", utf8 "訂正事項を盛り込んだ最終の高度利用者向け緊急地震速報")
    ∷ (codes "9", utf8 "最終の高度利用者向け緊急地震速報")
    ∷ []

-- `Shindo`
unfoldable pub shindo : List (Bytes × Bytes)
unfolding utf8
shindo =
    (codes "//", utf8 "不明")
    ∷ (codes "01", utf8 "1")
    ∷ (codes "02", utf8 "2")
    ∷ (codes "03", utf8 "3")
    ∷ (codes "04", utf8 "4")
    ∷ (codes "07", utf8 "7")
    ∷ (codes "5+", utf8 "5強")
    ∷ (codes "5-", utf8 "5弱")
    ∷ (codes "6+", utf8 "6強")
    ∷ (codes "6-", utf8 "6弱")
    ∷ []

-- `RK1`
unfoldable pub rk1 : List (Bytes × Bytes)
unfolding utf8
rk1 =
    (codes "/", utf8 "不明、未設定時、キャンセル時")
    ∷ (codes "1", utf8 "P波/S波レベル越え、またはテリトリー法(1点)")
    ∷ (codes "2", utf8 "テリトリー法(2点)")
    ∷ (codes "3", utf8 "グリッドサーチ法(3点/4点)")
    ∷ (codes "4", utf8 "グリッドサーチ法(5点)")
    ∷ (codes "5", utf8 "防災科研システム(4点以下、または精度情報なし)")
    ∷ (codes "6", utf8 "防災科研システム(5点以上)")
    ∷ (codes "7", utf8 "EPOS(海域[観測網外])")
    ∷ (codes "8", utf8 "EPOS(内陸[観測網内])")
    ∷ (codes "9", utf8 "予備")
    ∷ []

-- `RK2`
unfoldable pub rk2 : List (Bytes × Bytes)
unfolding utf8
rk2 =
    (codes "/", utf8 "不明、未設定時、キャンセル時")
    ∷ (codes "1", utf8 "P波/S波レベル越え、またはテリトリー法(1点)")
    ∷ (codes "2", utf8 "テリトリー法(2点)")
    ∷ (codes "3", utf8 "グリッドサーチ法(3点/4点)")
    ∷ (codes "4", utf8 "グリッドサーチ法(5点)")
    ∷ (codes "5", utf8 "防災科研システム(4点以下、または精度情報なし)")
    ∷ (codes "6", utf8 "防災科研システム(5点以上)")
    ∷ (codes "7", utf8 "EPOS(海域[観測網外])")
    ∷ (codes "8", utf8 "EPOS(内陸[観測網内])")
    ∷ (codes "9", utf8 "予備")
    ∷ []

-- `RK3`
unfoldable pub rk3 : List (Bytes × Bytes)
unfolding utf8
rk3 =
    (codes "/", utf8 "不明、未設定時、キャンセル時")
    ∷ (codes "1", utf8 "未定義")
    ∷ (codes "2", utf8 "防災科研システム")
    ∷ (codes "3", utf8 "全点(最大5点)P相")
    ∷ (codes "4", utf8 "P相/全相混在")
    ∷ (codes "5", utf8 "全点(最大5点)全相")
    ∷ (codes "6", utf8 "EPOS")
    ∷ (codes "7", utf8 "未定義")
    ∷ (codes "8", utf8 "P波/S波レベル越え")
    ∷ (codes "9", utf8 "予備")
    ∷ []

-- `RT1`
unfoldable pub rt1 : List (Bytes × Bytes)
unfolding utf8
rt1 = (codes "/", utf8 "不明") ∷ (codes "0", utf8 "陸") ∷ (codes "1", utf8 "海") ∷ []

-- `RC1`
unfoldable pub rc1 : List (Bytes × Bytes)
unfolding utf8
rc1 =
    (codes "/", utf8 "不明、未設定時、キャンセル時")
    ∷ (codes "0", utf8 "ほとんど変化なし")
    ∷ (codes "1", utf8 "最大予測震度が1.0以上大きくなった。")
    ∷ (codes "2", utf8 "最大予測震度が1.0以上小さくなった。")
    ∷ []

-- `RC2`
unfoldable pub rc2 : List (Bytes × Bytes)
unfolding utf8
rc2 =
    (codes "/", utf8 "不明、未設定時、キャンセル時")
    ∷ (codes "0", utf8 "変化なし")
    ∷ (codes "1", utf8 "主としてMが変化したため(1.0以上)")
    ∷ (codes "2", utf8 "主として震源位置が変化したため(10km以上)")
    ∷ (codes "3", utf8 "M及び震源位置が変化したため")
    ∷ (codes "4", utf8 "震源の深さが変化したため(上記のいずれにもあてはまらず、30km 以上の変化)")
    ∷ []

-- `EBIY1`
unfoldable pub ebiy1 : List (Bytes × Bytes)
unfolding utf8
ebiy1 = (codes "0", utf8 "警報なし") ∷ (codes "1", utf8 "警報地域") ∷ []

-- `EBIY2`
unfoldable pub ebiy2 : List (Bytes × Bytes)
unfolding utf8
ebiy2 = (codes "0", utf8 "未到達") ∷ (codes "1", utf8 "既に到着と予想") ∷ []

-- `WarnType`
unfoldable pub warn_type : List (Bytes × Bytes)
unfolding utf8
warn_type =
    (codes "CAI", utf8 "新たに追加された強い揺れが推定される地方")
    ∷ (codes "CBI", utf8 "新たに追加された強い揺れが推定される地域")
    ∷ (codes "CPI", utf8 "新たに追加された強い揺れが推定される県")
    ∷ (codes "EBI", utf8 "予想震度と到達時間")
    ∷ (codes "NCN", utf8 "高度利用者向け")
    ∷ (codes "NCPN", utf8 "一般向け")
    ∷ (codes "NPN", utf8 "一般向け")
    ∷ (codes "PAI", utf8 "強い揺れが推定される地方")
    ∷ (codes "PBI", utf8 "強い揺れが推定される地域")
    ∷ (codes "PPI", utf8 "強い揺れが推定される県")
    ∷ (codes "PRC", utf8 "強い揺れが推定される地域の追加")
    ∷ []
