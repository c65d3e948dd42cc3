-- ===== src/Wni/Frame/Response.antt =====
-- The answer to the login, and a Keep-Alive block, as the parser reads them.
use irc_eew.Base.Bytes.{Bytes, codes}
use irc_eew.Base.Dict.{get, put}
use irc_eew.Base.Trim.{trim_cr, trim_space, has_infix, cut}
use irc_eew.Base.{◌≡◌, refl, some, List, [], ◌∷◌}
use irc_eew.Base.Int.{ℤ}
use irc_eew.Wni.Frame.Blocks.{reading}
use irc_eew.Wni.Frame.{
  Frame, response, keep_alive, World, new_parser, fed, feed, drain, loop, round, proceed, classify,
}
use irc_eew.Wnisim.{send_response_ok, send_keep_alive}

-- The answer to the login, as the client reads it.
abbrev pub response_header : List (Bytes × Bytes)
response_header =
    (codes "X-WNI-ID", codes "Response")
    ∷ (codes "X-WNI-Result", codes "OK")
    ∷ (codes "X-WNI-Protocol-Version", codes "2.1")
    ∷ []

abbrev pub response_frame : Frame
response_frame = record { kind = response; id = []; header = response_header; md5 = []; body = [] }

pub response_fed :
    (w : World) → feed w new_parser send_response_ok ≡ some (fed new_parser (response_frame ∷ []))
unfolding feed drain loop round proceed cut classify trim_cr trim_space has_infix get put
response_fed w = refl

abbrev pub alive_frame : Frame
alive_frame = record { kind = keep_alive; id = []; header = []; md5 = []; body = [] }

pub keep_alive_fed :
    (w : World) (size : ℤ) (sent : List Bytes)
    → feed w (reading size sent [] []) send_keep_alive
      ≡ some (fed (reading size sent [] []) (alive_frame ∷ []))
unfolding feed drain loop round proceed cut classify trim_cr trim_space has_infix get put
keep_alive_fed w size sent = refl
