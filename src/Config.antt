-- ===== src/Config.antt =====
-- internal/config/config.go: the configuration, and the decoding of its two lenient entries. The
-- YAML package decodes a node, and `net/url` finds a host: both are arguments.
use irc_eew.Base.{ℕ, Bool, not, Option, none, some, List, [], ◌∷◌, get_elem?}
use irc_eew.Base.Bytes.{Bytes}
use irc_eew.Base.Int.{ℤ, is_nat}

pub record Hook : Type 0 where
  pub name : Bytes
  pub url : Bytes

pub record SlackConfig : Type 0 where
  pub all : List Hook
  pub limited : List Hook

pub record IrcServerConfig : Type 0 where
  pub host : Bytes
  pub port : ℤ
  pub password : Bytes
  pub charset : Bytes
  pub message_type : Bytes
  pub nick : Bytes
  pub name : Bytes
  pub desc : Bytes
  pub all_notice : List Bytes
  pub limited_notice : List Bytes

pub record WniConfig : Type 0 where
  pub user : Bytes
  pub passwd : Bytes
  pub passwd_md5 : Bytes
  -- `Logs`
  pub timeout : Bool
  pub keep_alive : Bool
  pub server_override : Bytes

pub record Config : Type 0 where
  pub log_dir : Bytes
  pub slack : Option SlackConfig
  pub wni_eew : WniConfig
  pub irc : List IrcServerConfig

-- The host that `url.Parse` finds, if it finds one that is not empty.
abbrev host_or : Bytes → Option Bytes → Bytes
host_or url none = url
host_or url (some []) = url
host_or url (some (c ∷ host)) = c ∷ host

abbrev name_or : Bytes → Bytes → Bytes
name_or [] other = other
name_or (c ∷ name) other = c ∷ name

-- `DisplayName`; `host_of` is the host by `url.Parse`, `none` its error.
unfoldable pub display_name : (Bytes → Option Bytes) → Hook → Bytes
display_name host_of h = name_or h.name (host_or h.url (host_of h.url))

-- A YAML node by its kind, with what `Decode` gives for it: a string, or the entries of a map.
pub data Node : Type 0 where
  scalar : Option Bytes → Node
  mapping : Option (List (Bytes × Bytes)) → Node
  other : Node

-- The entry that the loop over the map sees first.
abbrev entry_hook : Option (Bytes × Bytes) → Option Hook
entry_hook none = none
entry_hook (some (k, v)) = some (record { name = k; url = v })

-- `Hook.UnmarshalYAML`; `none` is an error. A Go map is walked in no fixed order: `first` is the
-- index of the entry that comes first, 0 if the map is empty.
pub unmarshal_hook : ℕ → Node → Option Hook
unmarshal_hook first (scalar none) = none
unmarshal_hook first (scalar (some s)) = some (record { name = []; url = s })
unmarshal_hook first (mapping none) = none
unmarshal_hook first (mapping (some m)) = entry_hook (get_elem? m first)
unmarshal_hook first other = none

-- `Flag.UnmarshalYAML`, on the node decoded as a bool and as an int.
pub unmarshal_flag : Option Bool → Option ℤ → Option Bool
unmarshal_flag (some b) as_int = some b
unmarshal_flag none (some n) = some (not (is_nat n 0))
unmarshal_flag none none = none
