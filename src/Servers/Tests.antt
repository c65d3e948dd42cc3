-- ===== src/Servers/Tests.antt =====
-- Two fetches, the second of which fails.
use irc_eew.Base.{ℕ, zero, some, List, [], ◌∷◌, ◌++◌}
use irc_eew.Base.Bytes.{codes}
use irc_eew.Servers.Known.{Offers, last_list, resolver, resolver_after, resolve-Offers}
use irc_eew.Servers.{Fetched, unfetched, answered, resolve}

abbrev first : ℕ → ℕ
first n = zero

abbrev fetches : List Fetched
fetches = answered 200 (some (codes "a:10000\r\nb:10000\n")) ∷ []

resolve-Offers_example :
    Offers
      (last_list [] (fetches ++ unfetched ∷ []))
      (resolve first (resolver_after first (resolver []) fetches) unfetched).0
resolve-Offers_example = resolve-Offers first (λ n h. h) fetches unfetched
