-- ===== src/Decoder/Tables/Areas100.antt =====
-- internal/decoder/tables_gen.go: `AreaCode`, the entries from "100" to "411".
use irc_eew.Base.{List, [], ◌∷◌}
use irc_eew.Base.Bytes.{Bytes, codes, utf8}

unfoldable pub area_code_from_100 : List (Bytes × Bytes)
unfolding utf8
area_code_from_100 =
    (codes "100", utf8 "石狩地方北部")
    ∷ (codes "101", utf8 "石狩地方中部")
    ∷ (codes "102", utf8 "石狩地方南部")
    ∷ (codes "105", utf8 "渡島地方北部")
    ∷ (codes "106", utf8 "渡島地方東部")
    ∷ (codes "107", utf8 "渡島地方西部")
    ∷ (codes "110", utf8 "檜山地方")
    ∷ (codes "115", utf8 "後志地方北部")
    ∷ (codes "116", utf8 "後志地方東部")
    ∷ (codes "117", utf8 "後志地方西部")
    ∷ (codes "119", utf8 "北海道奥尻島")
    ∷ (codes "120", utf8 "空知地方北部")
    ∷ (codes "121", utf8 "空知地方中部")
    ∷ (codes "122", utf8 "空知地方南部")
    ∷ (codes "125", utf8 "上川地方北部")
    ∷ (codes "126", utf8 "上川地方中部")
    ∷ (codes "127", utf8 "上川地方南部")
    ∷ (codes "130", utf8 "留萌地方中北部")
    ∷ (codes "131", utf8 "留萌地方南部")
    ∷ (codes "135", utf8 "宗谷地方北部")
    ∷ (codes "136", utf8 "宗谷地方南部")
    ∷ (codes "139", utf8 "北海道利尻礼文")
    ∷ (codes "140", utf8 "網走地方")
    ∷ (codes "141", utf8 "北見地方")
    ∷ (codes "142", utf8 "紋別地方")
    ∷ (codes "145", utf8 "胆振地方西部")
    ∷ (codes "146", utf8 "胆振地方中東部")
    ∷ (codes "150", utf8 "日高地方西部")
    ∷ (codes "151", utf8 "日高地方中部")
    ∷ (codes "152", utf8 "日高地方東部")
    ∷ (codes "155", utf8 "十勝地方北部")
    ∷ (codes "156", utf8 "十勝地方中部")
    ∷ (codes "157", utf8 "十勝地方南部")
    ∷ (codes "160", utf8 "釧路地方北部")
    ∷ (codes "161", utf8 "釧路地方中南部")
    ∷ (codes "165", utf8 "根室地方北部")
    ∷ (codes "166", utf8 "根室地方中部")
    ∷ (codes "167", utf8 "根室地方南部")
    ∷ (codes "200", utf8 "青森県津軽北部")
    ∷ (codes "201", utf8 "青森県津軽南部")
    ∷ (codes "202", utf8 "青森県三八上北")
    ∷ (codes "203", utf8 "青森県下北")
    ∷ (codes "210", utf8 "岩手県沿岸北部")
    ∷ (codes "211", utf8 "岩手県沿岸南部")
    ∷ (codes "212", utf8 "岩手県内陸北部")
    ∷ (codes "213", utf8 "岩手県内陸南部")
    ∷ (codes "220", utf8 "宮城県北部")
    ∷ (codes "221", utf8 "宮城県南部")
    ∷ (codes "222", utf8 "宮城県中部")
    ∷ (codes "230", utf8 "秋田県沿岸北部")
    ∷ (codes "231", utf8 "秋田県沿岸南部")
    ∷ (codes "232", utf8 "秋田県内陸北部")
    ∷ (codes "233", utf8 "秋田県内陸南部")
    ∷ (codes "240", utf8 "山形県庄内")
    ∷ (codes "241", utf8 "山形県最上")
    ∷ (codes "242", utf8 "山形県村山")
    ∷ (codes "243", utf8 "山形県置賜")
    ∷ (codes "250", utf8 "福島県中通り")
    ∷ (codes "251", utf8 "福島県浜通り")
    ∷ (codes "252", utf8 "福島県会津")
    ∷ (codes "300", utf8 "茨城県北部")
    ∷ (codes "301", utf8 "茨城県南部")
    ∷ (codes "310", utf8 "栃木県北部")
    ∷ (codes "311", utf8 "栃木県南部")
    ∷ (codes "320", utf8 "群馬県北部")
    ∷ (codes "321", utf8 "群馬県南部")
    ∷ (codes "330", utf8 "埼玉県北部")
    ∷ (codes "331", utf8 "埼玉県南部")
    ∷ (codes "332", utf8 "埼玉県秩父")
    ∷ (codes "340", utf8 "千葉県北東部")
    ∷ (codes "341", utf8 "千葉県北西部")
    ∷ (codes "342", utf8 "千葉県南部")
    ∷ (codes "350", utf8 "東京都２３区")
    ∷ (codes "351", utf8 "東京都多摩東部")
    ∷ (codes "352", utf8 "東京都多摩西部")
    ∷ (codes "354", utf8 "神津島")
    ∷ (codes "355", utf8 "伊豆大島")
    ∷ (codes "356", utf8 "新島")
    ∷ (codes "357", utf8 "三宅島")
    ∷ (codes "358", utf8 "八丈島")
    ∷ (codes "359", utf8 "小笠原")
    ∷ (codes "360", utf8 "神奈川県東部")
    ∷ (codes "361", utf8 "神奈川県西部")
    ∷ (codes "370", utf8 "新潟県上越")
    ∷ (codes "371", utf8 "新潟県中越")
    ∷ (codes "372", utf8 "新潟県下越")
    ∷ (codes "375", utf8 "新潟県佐渡")
    ∷ (codes "380", utf8 "富山県東部")
    ∷ (codes "381", utf8 "富山県西部")
    ∷ (codes "390", utf8 "石川県能登")
    ∷ (codes "391", utf8 "石川県加賀")
    ∷ (codes "400", utf8 "福井県嶺北")
    ∷ (codes "401", utf8 "福井県嶺南")
    ∷ (codes "411", utf8 "山梨県中・西部")
    ∷ []
