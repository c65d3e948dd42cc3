-- ===== src/Decoder/Tables/Epicenters822.antt =====
-- internal/decoder/tables_gen.go: `EpicenterCode`, the entries from "822" to "979".
use irc_eew.Base.{List, [], ◌∷◌}
use irc_eew.Base.Bytes.{Bytes, codes, utf8}

unfoldable pub epicenter_code_from_822 : List (Bytes × Bytes)
unfolding utf8
epicenter_code_from_822 =
    (codes "822", utf8 "種子島南東沖")
    ∷ (codes "823", utf8 "奄美大島北東沖")
    ∷ (codes "850", utf8 "沖縄本島近海")
    ∷ (codes "851", utf8 "南大東島近海")
    ∷ (codes "852", utf8 "沖縄本島南方沖")
    ∷ (codes "853", utf8 "宮古島近海")
    ∷ (codes "854", utf8 "石垣島近海")
    ∷ (codes "855", utf8 "石垣島南方沖")
    ∷ (codes "856", utf8 "西表島付近")
    ∷ (codes "857", utf8 "与那国島近海")
    ∷ (codes "858", utf8 "沖縄本島北西沖")
    ∷ (codes "859", utf8 "宮古島北西沖")
    ∷ (codes "860", utf8 "石垣島北西沖")
    ∷ (codes "900", utf8 "台湾付近")
    ∷ (codes "901", utf8 "東シナ海")
    ∷ (codes "902", utf8 "四国沖")
    ∷ (codes "903", utf8 "鳥島近海")
    ∷ (codes "904", utf8 "鳥島東方沖")
    ∷ (codes "905", utf8 "オホーツク海南部")
    ∷ (codes "906", utf8 "サハリン西方沖")
    ∷ (codes "907", utf8 "日本海北部")
    ∷ (codes "908", utf8 "日本海中部")
    ∷ (codes "909", utf8 "日本海西部")
    ∷ (codes "911", utf8 "父島近海")
    ∷ (codes "912", utf8 "千島列島")
    ∷ (codes "913", utf8 "千島列島南東沖")
    ∷ (codes "914", utf8 "北海道南東沖")
    ∷ (codes "915", utf8 "東北地方東方沖")
    ∷ (codes "916", utf8 "小笠原諸島西方沖")
    ∷ (codes "917", utf8 "硫黄島近海")
    ∷ (codes "918", utf8 "小笠原諸島東方沖")
    ∷ (codes "919", utf8 "南海道南方沖")
    ∷ (codes "920", utf8 "薩南諸島東方沖")
    ∷ (codes "921", utf8 "本州南方沖")
    ∷ (codes "922", utf8 "サハリン南部付近")
    ∷ (codes "930", utf8 "北西太平洋")
    ∷ (codes "932", utf8 "マリアナ諸島")
    ∷ (codes "933", utf8 "黄海")
    ∷ (codes "934", utf8 "朝鮮半島南部")
    ∷ (codes "935", utf8 "朝鮮半島北部")
    ∷ (codes "936", utf8 "中国東北部")
    ∷ (codes "937", utf8 "ウラジオストク付近")
    ∷ (codes "938", utf8 "シベリア南部")
    ∷ (codes "939", utf8 "サハリン近海")
    ∷ (codes "940", utf8 "アリューシャン列島")
    ∷ (codes "941", utf8 "カムチャツカ半島付近")
    ∷ (codes "942", utf8 "北米西部")
    ∷ (codes "943", utf8 "北米中部")
    ∷ (codes "944", utf8 "北米東部")
    ∷ (codes "945", utf8 "中米")
    ∷ (codes "946", utf8 "南米西部")
    ∷ (codes "947", utf8 "南米中部")
    ∷ (codes "948", utf8 "南米東部")
    ∷ (codes "949", utf8 "北東太平洋")
    ∷ (codes "950", utf8 "南太平洋")
    ∷ (codes "951", utf8 "インドシナ半島付近")
    ∷ (codes "952", utf8 "フィリピン付近")
    ∷ (codes "953", utf8 "インドネシア付近")
    ∷ (codes "954", utf8 "グアム付近")
    ∷ (codes "955", utf8 "ニューギニア付近")
    ∷ (codes "956", utf8 "ニュージーランド付近")
    ∷ (codes "957", utf8 "オーストラリア付近")
    ∷ (codes "958", utf8 "シベリア付近")
    ∷ (codes "959", utf8 "ロシア西部")
    ∷ (codes "960", utf8 "ロシア中部")
    ∷ (codes "961", utf8 "ロシア東部")
    ∷ (codes "962", utf8 "中央アジア")
    ∷ (codes "963", utf8 "中国西部")
    ∷ (codes "964", utf8 "中国中部")
    ∷ (codes "965", utf8 "中国東部")
    ∷ (codes "966", utf8 "インド付近")
    ∷ (codes "967", utf8 "インド洋")
    ∷ (codes "968", utf8 "中東")
    ∷ (codes "969", utf8 "ヨーロッパ西部")
    ∷ (codes "970", utf8 "ヨーロッパ中部")
    ∷ (codes "971", utf8 "ヨーロッパ東部")
    ∷ (codes "972", utf8 "地中海")
    ∷ (codes "973", utf8 "アフリカ西部")
    ∷ (codes "974", utf8 "アフリカ中部")
    ∷ (codes "975", utf8 "アフリカ東部")
    ∷ (codes "976", utf8 "北大西洋")
    ∷ (codes "977", utf8 "南大西洋")
    ∷ (codes "978", utf8 "北極付近")
    ∷ (codes "979", utf8 "南極付近")
    ∷ []
