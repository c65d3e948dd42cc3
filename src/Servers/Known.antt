-- ===== src/Servers/Known.antt =====
-- Where the resolved addresses come from.
use mathlib.Core.List.{cons-ne-nil}
use irc_eew.Base.{
  ℕ, zero, suc, ◌<◌, ◌≡◌, ◌≢◌, ◌++◌, ◌==◌, refl, sym, subst, Bool, true, false, Option, none, some,
  List, [], ◌∷◌, arith, length, get_elem?, ap,
}
use irc_eew.Base.Bytes.{Bytes}
use irc_eew.Base.Split.{split_from}
use irc_eew.Servers.{
  Fetched, unfetched, answered, not_empty, servers_from, fetch_server_list, Resolved, address,
  error, indexed, choose_server, Resolver, resolve_fetched, resolve_from, resolve,
}

-- The list that is known after a fetch.
abbrev pub learned : List Bytes → Option (List Bytes) → List Bytes
learned known none = known
learned known (some servers) = servers

-- The last list that was fetched, if there was one.
pub last_list : List Bytes → List Fetched → List Bytes
last_list known [] = known
last_list known (f ∷ fs) = last_list (learned known (fetch_server_list f)) fs

-- `Resolve` again and again.
pub resolver_after : (ℕ → ℕ) → Resolver → List Fetched → Resolver
resolver_after intn r [] = r
resolver_after intn r (f ∷ fs) = resolver_after intn (resolve intn r f).1 fs

-- A resolver without an override.
abbrev pub resolver : List Bytes → Resolver
resolver known = record { override = []; cached = known }

-- An address from the list, or the error if the list is empty.
abbrev pub Offers : List Bytes → Resolved → Type 0
Offers [] r = r ≡ error
Offers (s ∷ servers) r =
    (i : ℕ) × (a : Bytes) × (get_elem? (s ∷ servers) i ≡ some a) × (r ≡ address a)

-- A fetched list is not empty.
not_empty-some : (servers found : List Bytes) → not_empty servers ≡ some found → found ≢ []
not_empty-some [] found e = absurd (cc)
not_empty-some (s ∷ servers) [] e = absurd (cc)
not_empty-some (s ∷ servers) (t ∷ found) e = cons-ne-nil t found

fetched-not_empty :
    (f : Fetched) (found : List Bytes) → fetch_server_list f ≡ some found → found ≢ []
unfolding fetch_server_list
fetched-not_empty unfetched found e = absurd (cc)
fetched-not_empty (answered status none) found e = absurd (cc)
fetched-not_empty (answered status (some body)) found e =
    by_status (status == 200) (servers_from [] (split_from [] body)) e
  where
    by_status :
        (b : Bool) (servers : List Bytes)
        → elim b as (λ x. Option (List Bytes)) [ true ↦ not_empty servers | false ↦ none ]
          ≡ some found
        → found ≢ []
    by_status true servers e = not_empty-some servers found e
    by_status false servers e = absurd (cc)

module _ (intn : ℕ → ℕ) (below : (n : ℕ) → 0 < n → intn n < n) where
  in_range :
      {A : Type 0} (xs : List A) (i : ℕ) → i < length xs → (a : A) × (get_elem? xs i ≡ some a)
  in_range [] i h = absurd (omega arith)
  in_range (x ∷ xs) zero h = (x, refl)
  in_range (x ∷ xs) (suc i) h = in_range xs i (omega arith)

  choose_server-Offers :
      (s : Bytes) (servers : List Bytes) → Offers (s ∷ servers) (choose_server intn (s ∷ servers))
  choose_server-Offers s servers =
      let i = intn (length (s ∷ servers)) in
      let (a, e) = in_range (s ∷ servers) i (below (length (s ∷ servers)) (omega arith)) in
      (i, a, e, ap indexed e)

  -- One call, on what the fetch gave.
  resolve_fetched-Offers :
      (known : List Bytes) (o : Option (List Bytes))
      → ((found : List Bytes) → o ≡ some found → found ≢ [])
      → ((resolve_fetched intn (resolver known) o).1 ≡ resolver (learned known o))
        × Offers (learned known o) (resolve_fetched intn (resolver known) o).0
  unfolding resolve_fetched
  resolve_fetched-Offers [] none full = (refl, refl)
  resolve_fetched-Offers (s ∷ known) none full = (refl, choose_server-Offers s known)
  resolve_fetched-Offers known (some []) full = absurd (full [] refl refl)
  resolve_fetched-Offers known (some (s ∷ servers)) full = (refl, choose_server-Offers s servers)

  resolve-Offers_from :
      (known : List Bytes) (fs : List Fetched) (f : Fetched)
      → Offers
          (last_list known (fs ++ f ∷ []))
          (resolve intn (resolver_after intn (resolver known) fs) f).0
  unfolding resolver_after last_list resolve resolve_from
  resolve-Offers_from known [] f =
      (resolve_fetched-Offers known (fetch_server_list f) (fetched-not_empty f)).1
  resolve-Offers_from known (g ∷ fs) f =
      let step = resolve_fetched-Offers known (fetch_server_list g) (fetched-not_empty g) in
      subst
        (λ r.
          Offers (last_list (learned known (fetch_server_list g)) (fs ++ f ∷ []))
            (resolve intn (resolver_after intn r fs) f).0)
        (sym step.0) (resolve-Offers_from (learned known (fetch_server_list g)) fs f)

  -- Without an override, whatever the fetches of the server list gave so far, `Resolve` returns an
  -- address of the list that was fetched last, also when later fetches failed, and its error
  -- only when none was ever fetched; it never indexes an empty list. `rand.Intn` returns a
  -- number below its argument, if that is positive.
  pub resolve-Offers :
      (fs : List Fetched) (f : Fetched)
      → Offers
          (last_list [] (fs ++ f ∷ []))
          (resolve intn (resolver_after intn (resolver []) fs) f).0
  resolve-Offers fs f = resolve-Offers_from [] fs f
