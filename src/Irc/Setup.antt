-- ===== src/Irc/Setup.antt =====
-- internal/irc/config.go: the configuration of goirc for one server. `new_config` is
-- `goirc.NewConfig`; of what it gives, the program sets three fields.
use irc_eew.Base.{Bool, true, false, ◌||◌, [], ◌∷◌, ◌++◌, ◌==◌, if◌then◌else◌}
use irc_eew.Base.Bytes.{Bytes, codes}
use irc_eew.Base.Decimal.{show}
use irc_eew.Config.{IrcServerConfig}

-- `goirc.Config`; `others` are the fields that the program leaves as they are.
pub record ClientConfig (Others : Type 0) : Type 0 where
  pub nick : Bytes
  pub ident : Bytes
  pub name : Bytes
  pub server : Bytes
  pub pass : Bytes
  pub flood : Bool
  pub others : Others

abbrev has_colon : Bytes → Bool
has_colon [] = false
has_colon (c ∷ s) = c == b':' || has_colon s

-- `net.JoinHostPort`: an address of IPv6 goes into brackets.
unfoldable pub join_host_port : Bytes → Bytes → Bytes
join_host_port host port =
    if has_colon host
    then codes "[" ++ (host ++ (codes "]:" ++ port))
    else host ++ (codes ":" ++ port)

-- `clientConfig`
unfoldable pub client_config :
    {Others : Type 0}
    → (Bytes → Bytes → Bytes → ClientConfig Others)
    → IrcServerConfig
    → ClientConfig Others
unfolding join_host_port
client_config new_config srv = record (new_config srv.nick srv.name srv.desc) {
  server = join_host_port srv.host (show srv.port);
  pass = srv.password;
  flood = true;
}
