-- ===== src/Decoder/Tables/Epicenters000.antt =====
-- internal/decoder/tables_gen.go: `EpicenterCode`, the entries from "///" to "251".
use irc_eew.Base.{List, [], ◌∷◌}
use irc_eew.Base.Bytes.{Bytes, codes, utf8}

unfoldable pub epicenter_code_from_000 : List (Bytes × Bytes)
unfolding utf8
epicenter_code_from_000 =
    (codes "///", utf8 "未設定(キャンセル時)")
    ∷ (codes "011", utf8 "北海道地方")
    ∷ (codes "012", utf8 "東北地方")
    ∷ (codes "013", utf8 "北陸地方")
    ∷ (codes "014", utf8 "関東甲信地方")
    ∷ (codes "015", utf8 "小笠原地方")
    ∷ (codes "016", utf8 "東海地方")
    ∷ (codes "017", utf8 "近畿地方")
    ∷ (codes "018", utf8 "中国地方")
    ∷ (codes "019", utf8 "四国地方")
    ∷ (codes "020", utf8 "九州地方")
    ∷ (codes "021", utf8 "沖縄地方")
    ∷ (codes "100", utf8 "石狩地方北部")
    ∷ (codes "101", utf8 "石狩地方中部")
    ∷ (codes "102", utf8 "石狩地方南部")
    ∷ (codes "105", utf8 "渡島地方北部")
    ∷ (codes "106", utf8 "渡島地方東部")
    ∷ (codes "107", utf8 "渡島地方西部")
    ∷ (codes "110", utf8 "檜山地方")
    ∷ (codes "115", utf8 "後志地方北部")
    ∷ (codes "116", utf8 "後志地方東部")
    ∷ (codes "117", utf8 "後志地方西部")
    ∷ (codes "120", utf8 "空知地方北部")
    ∷ (codes "121", utf8 "空知地方中部")
    ∷ (codes "122", utf8 "空知地方南部")
    ∷ (codes "125", utf8 "上川地方北部")
    ∷ (codes "126", utf8 "上川地方中部")
    ∷ (codes "127", utf8 "上川地方南部")
    ∷ (codes "130", utf8 "留萌地方中北部")
    ∷ (codes "131", utf8 "留萌地方南部")
    ∷ (codes "135", utf8 "宗谷地方北部")
    ∷ (codes "136", utf8 "宗谷地方南部")
    ∷ (codes "140", utf8 "網走地方")
    ∷ (codes "141", utf8 "北見地方")
    ∷ (codes "142", utf8 "紋別地方")
    ∷ (codes "145", utf8 "胆振地方西部")
    ∷ (codes "146", utf8 "胆振地方中東部")
    ∷ (codes "150", utf8 "日高地方西部")
    ∷ (codes "151", utf8 "日高地方中部")
    ∷ (codes "152", utf8 "日高地方東部")
    ∷ (codes "155", utf8 "十勝地方北部")
    ∷ (codes "156", utf8 "十勝地方中部")
    ∷ (codes "157", utf8 "十勝地方南部")
    ∷ (codes "160", utf8 "釧路地方北部")
    ∷ (codes "161", utf8 "釧路地方中南部")
    ∷ (codes "165", utf8 "根室地方北部")
    ∷ (codes "166", utf8 "根室地方中部")
    ∷ (codes "167", utf8 "根室地方南部")
    ∷ (codes "180", utf8 "北海道南西沖")
    ∷ (codes "181", utf8 "北海道西方沖")
    ∷ (codes "182", utf8 "石狩湾")
    ∷ (codes "183", utf8 "北海道北西沖")
    ∷ (codes "184", utf8 "宗谷海峡")
    ∷ (codes "186", utf8 "国後島付近")
    ∷ (codes "187", utf8 "択捉島付近")
    ∷ (codes "188", utf8 "北海道東方沖")
    ∷ (codes "189", utf8 "根室半島南東沖")
    ∷ (codes "190", utf8 "釧路沖")
    ∷ (codes "191", utf8 "十勝沖")
    ∷ (codes "192", utf8 "浦河沖")
    ∷ (codes "193", utf8 "苫小牧沖")
    ∷ (codes "194", utf8 "内浦湾")
    ∷ (codes "195", utf8 "宗谷東方沖")
    ∷ (codes "196", utf8 "網走沖")
    ∷ (codes "197", utf8 "択捉島南東沖")
    ∷ (codes "200", utf8 "青森県津軽北部")
    ∷ (codes "201", utf8 "青森県津軽南部")
    ∷ (codes "202", utf8 "青森県三八上北地方")
    ∷ (codes "203", utf8 "青森県下北地方")
    ∷ (codes "210", utf8 "岩手県沿岸北部")
    ∷ (codes "211", utf8 "岩手県沿岸南部")
    ∷ (codes "212", utf8 "岩手県内陸北部")
    ∷ (codes "213", utf8 "岩手県内陸南部")
    ∷ (codes "220", utf8 "宮城県北部")
    ∷ (codes "221", utf8 "宮城県南部")
    ∷ (codes "222", utf8 "宮城県中部")
    ∷ (codes "230", utf8 "秋田県沿岸北部")
    ∷ (codes "231", utf8 "秋田県沿岸南部")
    ∷ (codes "232", utf8 "秋田県内陸北部")
    ∷ (codes "233", utf8 "秋田県内陸南部")
    ∷ (codes "240", utf8 "山形県庄内地方")
    ∷ (codes "241", utf8 "山形県最上地方")
    ∷ (codes "242", utf8 "山形県村山地方")
    ∷ (codes "243", utf8 "山形県置賜地方")
    ∷ (codes "250", utf8 "福島県中通り")
    ∷ (codes "251", utf8 "福島県浜通り")
    ∷ []
