-- ===== src/Wnisim/Session/Login.antt =====
-- The fake server reads the login that the client writes.
use irc_eew.Base.Bytes.{Bytes, codes}
use irc_eew.Base.Dict.{put}
use irc_eew.Base.Trim.{rev, rev-rev, All-rev, trim_space, trim_space-blank, cut}
use irc_eew.Base.{
  ℕ, ◌≡◌, ◌≢◌, refl, sym, ◌∙◌, ap, true, false, List, [], ◌∷◌, ◌++◌, ◌==◌, All, All-append,
  append_assoc, append-nil, arith,
}
use irc_eew.Wni.Client.{login_request}
use irc_eew.Wnisim.Session.{
  skip_ends, trim_ends, read_from, arrivals, logged_in, await_from, await_login,
}

-- Neither CR nor LF.
abbrev pub InLine : ℕ → Type 0
InLine c = (c ≢ b'\r') × (c ≢ b'\n')

skip_ends-InLine : (s : Bytes) → All InLine s → skip_ends s ≡ s
skip_ends-InLine [] h = refl
skip_ends-InLine (c ∷ s) h = ground arith

trim_ends-InLine : (s : Bytes) → All InLine s → trim_ends s ≡ s
unfolding trim_ends
trim_ends-InLine s h = ap rev (skip_ends-InLine (rev s) (All-rev InLine s h)) ∙ rev-rev s

read_from-line :
    (cur s rest : Bytes)
    → All InLine s
    → read_from cur (s ++ b'\n' ∷ rest) ≡ trim_ends (cur ++ s) ∷ read_from [] rest
unfolding read_from
read_from-line cur [] rest h = ap (λ l. trim_ends l ∷ read_from [] rest) (sym (append-nil cur))
read_from-line cur (c ∷ s) rest h =
    ap
      (λ b. elim b [
        | true ↦ trim_ends cur ∷ read_from [] (s ++ b'\n' ∷ rest)
        | false ↦ read_from (cur ++ c ∷ []) (s ++ b'\n' ∷ rest)
      ])
      not_end
    ∙ read_from-line (cur ++ c ∷ []) s rest h.1
    ∙ ap (λ l. trim_ends l ∷ read_from [] rest) (append_assoc cur (c ∷ []) s)
  where
    not_end : (c == b'\n') ≡ false
    not_end = ground arith

-- A text that a header can carry: in one line, with no blanks at its ends.
pub record IsField (s : Bytes) : Type 0 where
  pub in_line : All InLine s
  pub trimmed : trim_space s ≡ s

-- What the server makes of the login.
abbrev pub login_headers : Bytes → Bytes → Bytes → List (Bytes × Bytes)
login_headers user hash now =
    (codes "User-Agent", codes "FastCaster/1.0 powered by weathernews.")
    ∷ (codes "Accept", codes "*/*")
    ∷ (codes "Cache-Control", codes "no-cache")
    ∷ (codes "X-WNI-Account", user)
    ∷ (codes "X-WNI-Password", hash)
    ∷ (codes "X-WNI-Application-Version", codes "2.2.4.0")
    ∷ (codes "X-WNI-Authentication-Method", codes "MDB_MWS")
    ∷ (codes "X-WNI-ID", codes "Login")
    ∷ (codes "X-WNI-Protocol-Version", codes "2.1")
    ∷ (codes "X-WNI-Terminal-ID", codes "211363088")
    ∷ (codes "X-WNI-Time", now)
    ∷ []

-- The lines of the login, up to the account, from the password on, and from the version on.
abbrev opening_lines : List Bytes → List Bytes
opening_lines ls =
    codes "GET /login HTTP/1.0"
    ∷ codes "User-Agent: FastCaster/1.0 powered by weathernews."
    ∷ codes "Accept: */*"
    ∷ codes "Cache-Control: no-cache"
    ∷ ls

abbrev version_lines : List Bytes → List Bytes
version_lines ls =
    codes "X-WNI-Application-Version: 2.2.4.0"
    ∷ codes "X-WNI-Authentication-Method: MDB_MWS"
    ∷ codes "X-WNI-ID: Login"
    ∷ codes "X-WNI-Protocol-Version: 2.1"
    ∷ codes "X-WNI-Terminal-ID: 211363088"
    ∷ ls

abbrev account_line : Bytes → Bytes
account_line user = codes "X-WNI-Account: " ++ user

abbrev password_line : Bytes → Bytes
password_line hash = codes "X-WNI-Password: " ++ hash

abbrev time_line : Bytes → Bytes
time_line now = codes "X-WNI-Time: " ++ now

field_line :
    (prefix s rest : Bytes)
    → All InLine prefix
    → All InLine s
    → read_from prefix (s ++ b'\n' ∷ rest) ≡ (prefix ++ s) ∷ read_from [] rest
field_line prefix s rest p h =
    read_from-line prefix s rest h
    ∙ ap (λ l. l ∷ read_from [] rest)
        (trim_ends-InLine (prefix ++ s) (All-append InLine prefix s p h))

read_login :
    (user hash now : Bytes)
    → All InLine user
    → All InLine hash
    → All InLine now
    → read_from [] (login_request user hash now)
      ≡ opening_lines
          (account_line user ∷ password_line hash ∷ version_lines (time_line now ∷ [] ∷ []))
unfolding login_request read_from trim_ends
read_login user hash now u p n =
    ap opening_lines (field_line (codes "X-WNI-Account: ") user _ (omega arith) u)
    ∙ ap (λ ls. opening_lines (account_line user ∷ ls))
        (field_line (codes "X-WNI-Password: ") hash _ (omega arith) p)
    ∙ ap (λ ls. opening_lines (account_line user ∷ password_line hash ∷ version_lines ls))
        (field_line (codes "X-WNI-Time: ") now _ (omega arith) n)

value : (s : Bytes) → IsField s → trim_space (b' ' ∷ s) ≡ s
value s f = trim_space-blank s ∙ f.trimmed

-- When the client writes its login, and the account, the password and the time are in one line each,
-- with no blanks at their ends, the server reads the login to its end and has exactly the
-- headers of the request, with these three values.
pub await_login-login_request :
    (user hash now : Bytes)
    → IsField user
    → IsField hash
    → IsField now
    → await_login (arrivals (read_from [] (login_request user hash now)))
      ≡ (login_headers user hash now, logged_in)
unfolding await_login await_from put cut trim_space
await_login-login_request user hash now u p n =
    ap (λ ls. await_login (arrivals ls)) (read_login user hash now u.in_line p.in_line n.in_line)
    ∙ ap (λ x. (login_headers x (trim_space (b' ' ∷ hash)) (trim_space (b' ' ∷ now)), logged_in))
        (value user u)
    ∙ ap (λ x. (login_headers user x (trim_space (b' ' ∷ now)), logged_in)) (value hash p)
    ∙ ap (λ x. (login_headers user hash x, logged_in)) (value now n)
