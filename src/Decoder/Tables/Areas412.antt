-- ===== src/Decoder/Tables/Areas412.antt =====
-- internal/decoder/tables_gen.go: `AreaCode`, the entries from "412" to "807".
use irc_eew.Base.{List, [], ◌∷◌}
use irc_eew.Base.Bytes.{Bytes, codes, utf8}

unfoldable pub area_code_from_412 : List (Bytes × Bytes)
unfolding utf8
area_code_from_412 =
    (codes "412", utf8 "山梨県東部・富士五湖")
    ∷ (codes "420", utf8 "長野県北部")
    ∷ (codes "421", utf8 "長野県中部")
    ∷ (codes "422", utf8 "長野県南部")
    ∷ (codes "430", utf8 "岐阜県飛騨")
    ∷ (codes "431", utf8 "岐阜県美濃東部")
    ∷ (codes "432", utf8 "岐阜県美濃中西部")
    ∷ (codes "440", utf8 "静岡県伊豆")
    ∷ (codes "441", utf8 "静岡県東部")
    ∷ (codes "442", utf8 "静岡県中部")
    ∷ (codes "443", utf8 "静岡県西部")
    ∷ (codes "450", utf8 "愛知県東部")
    ∷ (codes "451", utf8 "愛知県西部")
    ∷ (codes "460", utf8 "三重県北部")
    ∷ (codes "461", utf8 "三重県中部")
    ∷ (codes "462", utf8 "三重県南部")
    ∷ (codes "500", utf8 "滋賀県北部")
    ∷ (codes "501", utf8 "滋賀県南部")
    ∷ (codes "510", utf8 "京都府北部")
    ∷ (codes "511", utf8 "京都府南部")
    ∷ (codes "520", utf8 "大阪府北部")
    ∷ (codes "521", utf8 "大阪府南部")
    ∷ (codes "530", utf8 "兵庫県北部")
    ∷ (codes "531", utf8 "兵庫県南東部")
    ∷ (codes "532", utf8 "兵庫県南西部")
    ∷ (codes "535", utf8 "兵庫県淡路島")
    ∷ (codes "540", utf8 "奈良県")
    ∷ (codes "550", utf8 "和歌山県北部")
    ∷ (codes "551", utf8 "和歌山県南部")
    ∷ (codes "560", utf8 "鳥取県東部")
    ∷ (codes "562", utf8 "鳥取県中部")
    ∷ (codes "563", utf8 "鳥取県西部")
    ∷ (codes "570", utf8 "島根県東部")
    ∷ (codes "571", utf8 "島根県西部")
    ∷ (codes "575", utf8 "島根県隠岐")
    ∷ (codes "580", utf8 "岡山県北部")
    ∷ (codes "581", utf8 "岡山県南部")
    ∷ (codes "590", utf8 "広島県北部")
    ∷ (codes "591", utf8 "広島県南東部")
    ∷ (codes "592", utf8 "広島県南西部")
    ∷ (codes "600", utf8 "徳島県北部")
    ∷ (codes "601", utf8 "徳島県南部")
    ∷ (codes "610", utf8 "香川県東部")
    ∷ (codes "611", utf8 "香川県西部")
    ∷ (codes "620", utf8 "愛媛県東予")
    ∷ (codes "621", utf8 "愛媛県中予")
    ∷ (codes "622", utf8 "愛媛県南予")
    ∷ (codes "630", utf8 "高知県東部")
    ∷ (codes "631", utf8 "高知県中部")
    ∷ (codes "632", utf8 "高知県西部")
    ∷ (codes "700", utf8 "山口県北部")
    ∷ (codes "701", utf8 "山口県東部")
    ∷ (codes "702", utf8 "山口県西部")
    ∷ (codes "710", utf8 "福岡県福岡")
    ∷ (codes "711", utf8 "福岡県北九州")
    ∷ (codes "712", utf8 "福岡県筑豊")
    ∷ (codes "713", utf8 "福岡県筑後")
    ∷ (codes "720", utf8 "佐賀県北部")
    ∷ (codes "721", utf8 "佐賀県南部")
    ∷ (codes "730", utf8 "長崎県北部")
    ∷ (codes "731", utf8 "長崎県南西部")
    ∷ (codes "732", utf8 "長崎県島原半島")
    ∷ (codes "735", utf8 "長崎県対馬")
    ∷ (codes "736", utf8 "長崎県壱岐")
    ∷ (codes "737", utf8 "長崎県五島")
    ∷ (codes "740", utf8 "熊本県阿蘇")
    ∷ (codes "741", utf8 "熊本県熊本")
    ∷ (codes "742", utf8 "熊本県球磨")
    ∷ (codes "743", utf8 "熊本県天草・芦北")
    ∷ (codes "750", utf8 "大分県北部")
    ∷ (codes "751", utf8 "大分県中部")
    ∷ (codes "752", utf8 "大分県南部")
    ∷ (codes "753", utf8 "大分県西部")
    ∷ (codes "760", utf8 "宮崎県北部平野部")
    ∷ (codes "761", utf8 "宮崎県北部山沿い")
    ∷ (codes "762", utf8 "宮崎県南部平野部")
    ∷ (codes "763", utf8 "宮崎県南部山沿い")
    ∷ (codes "770", utf8 "鹿児島県薩摩")
    ∷ (codes "771", utf8 "鹿児島県大隅")
    ∷ (codes "774", utf8 "鹿児島県十島村")
    ∷ (codes "775", utf8 "鹿児島県甑島")
    ∷ (codes "776", utf8 "鹿児島県種子島")
    ∷ (codes "777", utf8 "鹿児島県屋久島")
    ∷ (codes "778", utf8 "鹿児島県奄美北部")
    ∷ (codes "779", utf8 "鹿児島県奄美南部")
    ∷ (codes "800", utf8 "沖縄県本島北部")
    ∷ (codes "801", utf8 "沖縄県本島中南部")
    ∷ (codes "802", utf8 "沖縄県久米島")
    ∷ (codes "803", utf8 "沖縄県大東島")
    ∷ (codes "804", utf8 "沖縄県宮古島")
    ∷ (codes "805", utf8 "沖縄県石垣島")
    ∷ (codes "806", utf8 "沖縄県与那国島")
    ∷ (codes "807", utf8 "沖縄県西表島")
    ∷ []
