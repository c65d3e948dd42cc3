-- ===== src/Wni/Frame/Tests.antt =====
-- The parser and the client on small inputs.
use mathlib.Core.List.{flatten}
use irc_eew.Base.{true, ◌≡◌, refl, some, [], ◌∷◌, ◌++◌, arith, map}
use irc_eew.Base.Bytes.{Bytes, codes}
use irc_eew.Base.Dict.{get, put}
use irc_eew.Base.Int.{pos}
use irc_eew.Base.Trim.{trim_cr, trim_space, has_infix, cut}
use irc_eew.Wni.Client.Delivery.{run-chunks}
use irc_eew.Wni.Client.{Handlers, received, waiting, dispatch, run}
use irc_eew.Wni.Frame.Blocks.{reading}
use irc_eew.Wni.Frame.Chunks.{behind, map_fed, feed-append, feed-settled}
use irc_eew.Wni.Frame.Negative.{negative_block, feed-negative_block}
use irc_eew.Wni.Frame.Termination.{feed_total}
use irc_eew.Wni.Frame.{
  World, Parser, new_parser, Frame, keep_alive, Fed, fed, crashed, feed, drain, loop, round,
  proceed, classify,
}

abbrev world : World
world = record { now = λ n. codes "2011/03/11 05:46:16.000000"; write_ok = λ n. true }

abbrev first : Bytes
first = codes "X-WNI-ID: Keep-"

abbrev more : Bytes
more = codes "Alive\n\n"

abbrev waiting_parser : Parser
waiting_parser = record new_parser { buf = first }

abbrev alive : Frame
alive = record { kind = keep_alive; id = []; header = []; md5 = []; body = [] }

abbrev handlers : Handlers
handlers = record { has_data = true; has_keep_alive = true; has_response = true }

first_fed : feed world new_parser first ≡ some (fed waiting_parser [])
unfolding feed drain loop round proceed cut
first_fed = refl

both_fed : feed world new_parser (first ++ more) ≡ some (fed new_parser (alive ∷ []))
unfolding feed drain loop round proceed cut classify trim_cr trim_space has_infix get put
both_fed = refl

feed_total_example : (r : Fed) × (feed world waiting_parser more ≡ some r)
feed_total_example = feed_total world waiting_parser more

feed-append_example :
    feed world new_parser (first ++ more) ≡ map_fed (behind []) (feed world waiting_parser more)
feed-append_example = feed-append world new_parser waiting_parser first more first_fed refl

feed-settled_example : feed world waiting_parser [] ≡ some (fed waiting_parser [])
feed-settled_example = feed-settled world new_parser waiting_parser first first_fed

run-chunks_example :
    run world handlers new_parser (map received (first ∷ more ∷ []))
    ≡ (dispatch handlers (alive ∷ []), waiting)
unfolding flatten
run-chunks_example =
    run-chunks world handlers new_parser new_parser (first ∷ more ∷ [])
      (feed-settled world new_parser new_parser (first ++ more) both_fed) both_fed refl

feed-negative_block_example :
    feed world (reading (pos 0) [] [] []) (negative_block 0 (codes "abc")) ≡ some crashed
feed-negative_block_example = feed-negative_block world (pos 0) [] 0 (codes "abc") (omega arith)
