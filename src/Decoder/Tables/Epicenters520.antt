-- ===== src/Decoder/Tables/Epicenters520.antt =====
-- internal/decoder/tables_gen.go: `EpicenterCode`, the entries from "520" to "821".
use irc_eew.Base.{List, [], ◌∷◌}
use irc_eew.Base.Bytes.{Bytes, codes, utf8}

unfoldable pub epicenter_code_from_520 : List (Bytes × Bytes)
unfolding utf8
epicenter_code_from_520 =
    (codes "520", utf8 "大阪府北部")
    ∷ (codes "521", utf8 "大阪府南部")
    ∷ (codes "530", utf8 "兵庫県北部")
    ∷ (codes "531", utf8 "兵庫県南東部")
    ∷ (codes "532", utf8 "兵庫県南西部")
    ∷ (codes "540", utf8 "奈良県")
    ∷ (codes "550", utf8 "和歌山県北部")
    ∷ (codes "551", utf8 "和歌山県南部")
    ∷ (codes "560", utf8 "鳥取県東部")
    ∷ (codes "562", utf8 "鳥取県中部")
    ∷ (codes "563", utf8 "鳥取県西部")
    ∷ (codes "570", utf8 "島根県東部")
    ∷ (codes "571", utf8 "島根県西部")
    ∷ (codes "580", utf8 "岡山県北部")
    ∷ (codes "581", utf8 "岡山県南部")
    ∷ (codes "590", utf8 "広島県北部")
    ∷ (codes "591", utf8 "広島県南東部")
    ∷ (codes "592", utf8 "広島県南西部")
    ∷ (codes "600", utf8 "徳島県北部")
    ∷ (codes "601", utf8 "徳島県南部")
    ∷ (codes "610", utf8 "香川県東部")
    ∷ (codes "611", utf8 "香川県西部")
    ∷ (codes "620", utf8 "愛媛県東予")
    ∷ (codes "621", utf8 "愛媛県中予")
    ∷ (codes "622", utf8 "愛媛県南予")
    ∷ (codes "630", utf8 "高知県東部")
    ∷ (codes "631", utf8 "高知県中部")
    ∷ (codes "632", utf8 "高知県西部")
    ∷ (codes "673", utf8 "土佐湾")
    ∷ (codes "674", utf8 "紀伊水道")
    ∷ (codes "675", utf8 "大阪湾")
    ∷ (codes "676", utf8 "播磨灘")
    ∷ (codes "677", utf8 "瀬戸内海中部")
    ∷ (codes "678", utf8 "安芸灘")
    ∷ (codes "679", utf8 "周防灘")
    ∷ (codes "680", utf8 "伊予灘")
    ∷ (codes "681", utf8 "豊後水道")
    ∷ (codes "682", utf8 "山口県北西沖")
    ∷ (codes "683", utf8 "島根県沖")
    ∷ (codes "684", utf8 "鳥取県沖")
    ∷ (codes "685", utf8 "隠岐島近海")
    ∷ (codes "686", utf8 "兵庫県北方沖")
    ∷ (codes "687", utf8 "京都府沖")
    ∷ (codes "688", utf8 "淡路島付近")
    ∷ (codes "689", utf8 "和歌山県南方沖")
    ∷ (codes "700", utf8 "山口県北部")
    ∷ (codes "701", utf8 "山口県東部")
    ∷ (codes "702", utf8 "山口県西部")
    ∷ (codes "710", utf8 "福岡県福岡地方")
    ∷ (codes "711", utf8 "福岡県北九州地方")
    ∷ (codes "712", utf8 "福岡県筑豊地方")
    ∷ (codes "713", utf8 "福岡県筑後地方")
    ∷ (codes "720", utf8 "佐賀県北部")
    ∷ (codes "721", utf8 "佐賀県南部")
    ∷ (codes "730", utf8 "長崎県北部")
    ∷ (codes "731", utf8 "長崎県南西部")
    ∷ (codes "732", utf8 "長崎県島原半島")
    ∷ (codes "740", utf8 "熊本県阿蘇地方")
    ∷ (codes "741", utf8 "熊本県熊本地方")
    ∷ (codes "742", utf8 "熊本県球磨地方")
    ∷ (codes "743", utf8 "熊本県天草・芦北地方")
    ∷ (codes "750", utf8 "大分県北部")
    ∷ (codes "751", utf8 "大分県中部")
    ∷ (codes "752", utf8 "大分県南部")
    ∷ (codes "753", utf8 "大分県西部")
    ∷ (codes "760", utf8 "宮崎県北部平野部")
    ∷ (codes "761", utf8 "宮崎県北部山沿い")
    ∷ (codes "762", utf8 "宮崎県南部平野部")
    ∷ (codes "763", utf8 "宮崎県南部山沿い")
    ∷ (codes "770", utf8 "鹿児島県薩摩地方")
    ∷ (codes "771", utf8 "鹿児島県大隅地方")
    ∷ (codes "783", utf8 "五島列島近海")
    ∷ (codes "784", utf8 "天草灘")
    ∷ (codes "785", utf8 "有明海")
    ∷ (codes "786", utf8 "橘湾")
    ∷ (codes "787", utf8 "鹿児島湾")
    ∷ (codes "790", utf8 "種子島近海")
    ∷ (codes "791", utf8 "日向灘")
    ∷ (codes "793", utf8 "奄美大島近海")
    ∷ (codes "795", utf8 "壱岐・対馬近海")
    ∷ (codes "796", utf8 "福岡県北西沖")
    ∷ (codes "797", utf8 "薩摩半島西方沖")
    ∷ (codes "798", utf8 "トカラ列島近海")
    ∷ (codes "799", utf8 "奄美大島北西沖")
    ∷ (codes "820", utf8 "大隅半島東方沖")
    ∷ (codes "821", utf8 "九州地方南東沖")
    ∷ []
