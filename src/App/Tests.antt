-- ===== src/App/Tests.antt =====
-- The daemon on small inputs.
use irc_eew.App.Loop.Pacing.{Paced, run_connection_loop-Paced}
use irc_eew.App.Loop.{Attempt, attempt, run_connection_loop}
use irc_eew.App.Viewed.{process-viewed}
use irc_eew.App.{Processor, process, assemble}
use irc_eew.Archive.Memory.{memory, memory-Keeps}
use irc_eew.Archive.{file_name, final_path, temp_path, write_temp, finalize}
use irc_eew.Base.Bytes.{Bytes, codes}
use irc_eew.Base.Decimal.{show, dec}
use irc_eew.Base.Dict.{get, put}
use irc_eew.Base.Path.{join}
use irc_eew.Base.Int.{ℤ, pos}
use irc_eew.Base.{
  ℕ, ◌-◌, ◌≡◌, ◌≢◌, refl, Bool, true, false, Option, none, some, List, [], ◌∷◌, ◌++◌, map,
}
use irc_eew.Config.{Config, IrcServerConfig}
use irc_eew.Decoder.Decode.{
  decode, decode_lines, split_lines, decode_line, try_header, try_eq_time, try_nd,
}
use irc_eew.Base.Regex.{find, find_at_start}
use irc_eew.Irc.Connection.{second}
use irc_eew.Notify.{new_dispatcher}
use irc_eew.Servers.{unfetched}
use irc_eew.Viewer.Detail.{page, page_for, detail_handler}
use irc_eew.Viewer
use irc_eew.Wni.Client.{Handlers, received}
use irc_eew.Wni.Frame.{World}
use irc_eew.Wnisim.Delivery.{stream}

abbrev clock : ℕ → ℤ
clock n = pos 1300000000

abbrev host_of : Bytes → Option Bytes
host_of url = none

abbrev handlers : Handlers
handlers = record { has_data = true; has_keep_alive = false; has_response = true }

abbrev world : World
world = record { now = λ n. codes "2011/03/11 14:46:51.000000"; write_ok = λ n. true }

abbrev server : IrcServerConfig
server = record {
  host = codes "irc.example.com";
  port = pos 6667;
  password = [];
  charset = [];
  message_type = [];
  nick = codes "eew";
  name = codes "eew";
  desc = codes "eew";
  all_notice = codes "#all" ∷ [];
  limited_notice = codes "#news" ∷ [];
}

abbrev config : Config
config = record {
  log_dir = codes "./eewlog/";
  slack = some (record {
    all = record { name = []; url = codes "https://hooks.example.com/a" } ∷ [];
    limited = [];
  });
  wni_eew = record {
    user = codes "user";
    passwd = codes "secret";
    passwd_md5 = [];
    timeout = false;
    keep_alive = false;
    server_override = codes "localhost:10000";
  };
  irc = server ∷ [];
}

-- A telegram with the line of its report.
abbrev report : Bytes
report = codes "ND20110311144616 NCN001\n"

abbrev telegrams : List (Bytes × Bytes)
telegrams = (codes "d41d8cd9", report) ∷ (codes "9e107d9d", report) ∷ []

-- The stream in two reads.
abbrev chunks : List Bytes
chunks = codes "X-WNI" ∷ irc_eew.Base.drop 5 (stream telegrams) ∷ []

abbrev good : Attempt
good = record {
  fetched = unfetched;
  dials = true;
  logs_in = true;
  slept = true;
  world = world;
  events = map received chunks;
  canceled_then = false;
}

abbrev bad : Attempt
bad = record good { dials = false }

run_connection_loop-Paced_example :
    Paced second
      (run_connection_loop memory clock
        (λ n. n - 1)
        handlers
        (codes "localhost:10000")
        (assemble host_of config [] none)
        (attempt bad ∷ attempt bad ∷ attempt good ∷ [])).log
run_connection_loop-Paced_example =
    run_connection_loop-Paced memory clock (λ n. n - 1) handlers (codes "localhost:10000")
      (assemble host_of config [] none) (attempt bad ∷ attempt bad ∷ attempt good ∷ [])

abbrev viewer : irc_eew.Viewer.Config
viewer = record {
  data_dir = codes "./eewlog/";
  path_base = codes "./";
  viewer_path = codes "eew-show";
  listen_addr = codes ":8080";
}

abbrev processor : Processor
processor = record { store = some (codes "./eewlog/"); dispatcher = new_dispatcher [] [] }

report-named : (decode report).eq_id ≡ codes "20110311144616"
unfolding decode decode_lines split_lines decode_line try_header try_eq_time try_nd find
    find_at_start
report-named = refl

process-viewed_example :
    detail_handler memory
      (codes "/srv")
      (λ s. none)
      viewer
      (process memory (pos 1300000000) processor [] (codes "d41d8cd9") report).2
      (file_name (decode report).eq_id (decode report).warn_num)
    ≡ page (
        page_for
          (λ s. none)
          viewer
          (file_name (decode report).eq_id (decode report).warn_num)
          report)
unfolding write_temp finalize get put join show dec
process-viewed_example =
    process-viewed memory memory-Keeps (pos 1300000000) processor [] (codes "d41d8cd9") report
      (temp_path (codes "./eewlog/") (pos 1300000000) (codes "d41d8cd9"))
      (final_path (codes "./eewlog/") (decode report).eq_id (decode report).warn_num) (codes "srv")
      b'.' (codes "/eewlog/") (λ s. none) viewer refl refl refl refl
      (λ e. absurd (cc (report-named, e)))
