-- ===== src/Servers.antt =====
-- internal/wni/serverlist.go and the `serverResolver` of internal/app/app.go: which relay server the
-- client connects to next. The HTTP exchange is a `Fetched`, and `rand.Intn` is a function.
pub mod Known
mod Tests
use irc_eew.Base.{
  ℕ, zero, suc, Bool, true, false, Option, none, some, List, [], ◌∷◌, ◌++◌, ◌==◌, length, get_elem?,
}
use irc_eew.Base.Bytes.{Bytes}
use irc_eew.Base.Split.{split_from}
use irc_eew.Base.Trim.{trim_space}

-- `servers = append(servers, line)`, unless the line is empty.
abbrev add_server : List Bytes → Bytes → List Bytes
add_server servers [] = servers
add_server servers (c ∷ line) = servers ++ (c ∷ line) ∷ []

pub servers_from : List Bytes → List Bytes → List Bytes
servers_from servers [] = servers
servers_from servers (line ∷ lines) = servers_from (add_server servers (trim_space line)) lines

-- What comes of the request: an error, or a status code and the body, if it can be read.
pub data Fetched : Type 0 where
  unfetched : Fetched
  answered : ℕ → Option Bytes → Fetched

-- An empty list is an error.
abbrev pub not_empty : List Bytes → Option (List Bytes)
not_empty [] = none
not_empty (s ∷ servers) = some (s ∷ servers)

-- `FetchServerList`; `none` is its error.
pub fetch_server_list : Fetched → Option (List Bytes)
unfolding split_from servers_from
fetch_server_list unfetched = none
fetch_server_list (answered status none) = none
fetch_server_list (answered status (some body)) = elim (status == 200) [
  | true ↦ not_empty (servers_from [] (split_from [] body))
  | false ↦ none
]

pub data Resolved : Type 0 where
  address : Bytes → Resolved
  error : Resolved
  -- an index out of range
  panics : Resolved

-- An index into the list, or the panic of one out of range.
abbrev pub indexed : Option Bytes → Resolved
indexed none = panics
indexed (some s) = address s

-- `ChooseServer`
abbrev pub choose_server : (ℕ → ℕ) → List Bytes → Resolved
choose_server intn servers = indexed (get_elem? servers (intn (length servers)))

pub record Resolver : Type 0 where
  pub override : Bytes
  pub cached : List Bytes

-- On what the fetch gave.
pub resolve_fetched : (ℕ → ℕ) → Resolver → Option (List Bytes) → Resolved × Resolver
resolve_fetched intn r (some servers) = (choose_server intn servers, record r { cached = servers })
resolve_fetched intn r none = elim r.cached [
  | [] ↦ (error, r)
  | s ∷ cached ↦ (choose_server intn (s ∷ cached), r)
]

-- `Resolve`, with the override first.
pub resolve_from : (ℕ → ℕ) → Resolver → Bytes → Fetched → Resolved × Resolver
unfolding resolve_fetched
resolve_from intn r [] f = resolve_fetched intn r (fetch_server_list f)
resolve_from intn r (c ∷ override) f = (address (c ∷ override), r)

unfoldable pub resolve : (ℕ → ℕ) → Resolver → Fetched → Resolved × Resolver
unfolding resolve_from
resolve intn r f = resolve_from intn r r.override f
