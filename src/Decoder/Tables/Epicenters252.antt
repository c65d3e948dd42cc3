-- ===== src/Decoder/Tables/Epicenters252.antt =====
-- internal/decoder/tables_gen.go: `EpicenterCode`, the entries from "252" to "511".
use irc_eew.Base.{List, [], ◌∷◌}
use irc_eew.Base.Bytes.{Bytes, codes, utf8}

unfoldable pub epicenter_code_from_252 : List (Bytes × Bytes)
unfolding utf8
epicenter_code_from_252 =
    (codes "252", utf8 "福島県会津")
    ∷ (codes "280", utf8 "津軽海峡")
    ∷ (codes "281", utf8 "山形県沖")
    ∷ (codes "282", utf8 "秋田県沖")
    ∷ (codes "283", utf8 "青森県西方沖")
    ∷ (codes "284", utf8 "陸奥湾")
    ∷ (codes "285", utf8 "青森県東方沖")
    ∷ (codes "286", utf8 "岩手県沖")
    ∷ (codes "287", utf8 "宮城県沖")
    ∷ (codes "288", utf8 "三陸沖")
    ∷ (codes "289", utf8 "福島県沖")
    ∷ (codes "300", utf8 "茨城県北部")
    ∷ (codes "301", utf8 "茨城県南部")
    ∷ (codes "309", utf8 "千葉県南東沖")
    ∷ (codes "310", utf8 "栃木県北部")
    ∷ (codes "311", utf8 "栃木県南部")
    ∷ (codes "320", utf8 "群馬県北部")
    ∷ (codes "321", utf8 "群馬県南部")
    ∷ (codes "330", utf8 "埼玉県北部")
    ∷ (codes "331", utf8 "埼玉県南部")
    ∷ (codes "332", utf8 "埼玉県秩父地方")
    ∷ (codes "340", utf8 "千葉県北東部")
    ∷ (codes "341", utf8 "千葉県北西部")
    ∷ (codes "342", utf8 "千葉県南部")
    ∷ (codes "349", utf8 "房総半島南方沖")
    ∷ (codes "350", utf8 "東京都23区")
    ∷ (codes "351", utf8 "東京都多摩東部")
    ∷ (codes "352", utf8 "東京都多摩西部")
    ∷ (codes "360", utf8 "神奈川県東部")
    ∷ (codes "361", utf8 "神奈川県西部")
    ∷ (codes "370", utf8 "新潟県上越地方")
    ∷ (codes "371", utf8 "新潟県中越地方")
    ∷ (codes "372", utf8 "新潟県下越地方")
    ∷ (codes "378", utf8 "新潟県下越沖")
    ∷ (codes "379", utf8 "新潟県上中越沖")
    ∷ (codes "380", utf8 "富山県東部")
    ∷ (codes "381", utf8 "富山県西部")
    ∷ (codes "390", utf8 "石川県能登地方")
    ∷ (codes "391", utf8 "石川県加賀地方")
    ∷ (codes "400", utf8 "福井県嶺北")
    ∷ (codes "401", utf8 "福井県嶺南")
    ∷ (codes "411", utf8 "山梨県中・西部")
    ∷ (codes "412", utf8 "山梨県東部・富士五湖")
    ∷ (codes "420", utf8 "長野県北部")
    ∷ (codes "421", utf8 "長野県中部")
    ∷ (codes "422", utf8 "長野県南部")
    ∷ (codes "430", utf8 "岐阜県飛騨地方")
    ∷ (codes "431", utf8 "岐阜県美濃東部")
    ∷ (codes "432", utf8 "岐阜県美濃中西部")
    ∷ (codes "440", utf8 "静岡県伊豆地方")
    ∷ (codes "441", utf8 "静岡県東部")
    ∷ (codes "442", utf8 "静岡県中部")
    ∷ (codes "443", utf8 "静岡県西部")
    ∷ (codes "450", utf8 "愛知県東部")
    ∷ (codes "451", utf8 "愛知県西部")
    ∷ (codes "460", utf8 "三重県北部")
    ∷ (codes "461", utf8 "三重県中部")
    ∷ (codes "462", utf8 "三重県南部")
    ∷ (codes "469", utf8 "三重県南東沖")
    ∷ (codes "471", utf8 "茨城県沖")
    ∷ (codes "472", utf8 "関東東方沖")
    ∷ (codes "473", utf8 "千葉県東方沖")
    ∷ (codes "475", utf8 "八丈島東方沖")
    ∷ (codes "476", utf8 "八丈島近海")
    ∷ (codes "477", utf8 "東京湾")
    ∷ (codes "478", utf8 "相模湾")
    ∷ (codes "480", utf8 "伊豆大島近海")
    ∷ (codes "481", utf8 "伊豆半島東方沖")
    ∷ (codes "482", utf8 "三宅島近海")
    ∷ (codes "483", utf8 "新島・神津島近海")
    ∷ (codes "485", utf8 "駿河湾")
    ∷ (codes "486", utf8 "駿河湾南方沖")
    ∷ (codes "487", utf8 "遠州灘")
    ∷ (codes "489", utf8 "三河湾")
    ∷ (codes "490", utf8 "伊勢湾")
    ∷ (codes "492", utf8 "若狭湾")
    ∷ (codes "493", utf8 "福井県沖")
    ∷ (codes "494", utf8 "石川県西方沖")
    ∷ (codes "495", utf8 "能登半島沖")
    ∷ (codes "497", utf8 "富山湾")
    ∷ (codes "498", utf8 "佐渡付近")
    ∷ (codes "499", utf8 "東海道南方沖")
    ∷ (codes "500", utf8 "滋賀県北部")
    ∷ (codes "501", utf8 "滋賀県南部")
    ∷ (codes "510", utf8 "京都府北部")
    ∷ (codes "511", utf8 "京都府南部")
    ∷ []
