-- ===== src/Wnisim.antt =====
-- internal/wnisim/server.go: what the fake server writes. The hex text of `md5.Sum` is an
-- argument, since the program only calls `crypto/md5`.
pub mod Delivery
pub mod Session
pub mod Command
mod Tests
use irc_eew.Base.{List, [], ◌∷◌, ◌++◌, length}
use irc_eew.Base.Bytes.{Bytes, codes}
use irc_eew.Base.Decimal.{dec}

-- `dataBlockHeader`
unfoldable pub data_block_header : Bytes → Bytes → Bytes
data_block_header md5 body =
    codes "X-WNI-ID: Data\nContent-Length: "
    ++ (dec (length body) ++ (codes "\nX-WNI-Data-MD5: " ++ (md5 ++ codes "\n\n")))

-- `SendData`
unfoldable pub send_data : Bytes → Bytes → Bytes
unfolding data_block_header
send_data md5 body = data_block_header md5 body ++ body

-- `SendGETPing`
abbrev pub send_get_ping : Bytes
send_get_ping = codes "GET / HTTP/1.1\n"

-- `SendDataThenGETPing`
unfoldable pub send_data_then_get_ping : Bytes → Bytes → Bytes
unfolding data_block_header
send_data_then_get_ping md5 body = (data_block_header md5 body ++ body) ++ send_get_ping

-- `SendResponseOK`
abbrev pub send_response_ok : Bytes
send_response_ok =
    codes "HTTP/1.0 200 OK\nX-WNI-ID: Response\nX-WNI-Result: OK\nX-WNI-Protocol-Version: 2.1\n\n"

-- `SendKeepAlive`
abbrev pub send_keep_alive : Bytes
send_keep_alive = codes "X-WNI-ID: Keep-Alive\n\n"
