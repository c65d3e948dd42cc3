-- ===== src/Decoder/Generator/Rows.antt =====
-- One entry of a Perl table, in every form that the pattern of `entryRE` allows.
use mathlib.Core.Option
use irc_eew.Base.{
  ℕ, ◌≡◌, ◌≢◌, refl, ◌∙◌, ap, Bool, true, false, some, [], ◌∷◌, ◌++◌, append_assoc, arith, All,
  Bool-cases, inl, inr, ◌==◌, ==_iff,
}
use irc_eew.Base.Bytes.{Bytes, codes}
use irc_eew.Base.Trim.{cut, cut-append}
use irc_eew.Decoder.Generator.Patterns.{
  is_blank, is_word, skip_blanks, expect, span_word, bare_key, scan_key, skip_comma, entry_match,
  quoted_text, is_end,
}

abbrev pub IsBlank : ℕ → Type 0
IsBlank c = is_blank c ≡ true

abbrev pub IsWord : ℕ → Type 0
IsWord c = is_word c ≡ true

abbrev pub NoQuote : ℕ → Type 0
NoQuote c = c ≢ b'\''

-- An entry, with the blanks of its line.
pub record Row : Type 0 where
  pub lead : Bytes
  -- is the key bare?
  pub bare : Bool
  pub key : Bytes
  pub before_arrow : Bytes
  pub after_arrow : Bytes
  pub value : Bytes
  pub before_comma : Bytes
  pub comma : Bool
  pub trail : Bytes

abbrev pub key_text : Bool → Bytes → Bytes
key_text true key = key
key_text false key = b'\'' ∷ (key ++ b'\'' ∷ [])

abbrev pub comma_text : Bool → Bytes
comma_text true = codes ","
comma_text false = []

-- What stands behind the key.
abbrev pub behind_key : Row → Bytes
behind_key r =
    r.before_arrow
    ++ (codes "=>"
        ++ (r.after_arrow
            ++ b'\'' ∷ (r.value ++ b'\'' ∷ (r.before_comma ++ (comma_text r.comma ++ r.trail)))))

abbrev pub spell_row : Row → Bytes
spell_row r = r.lead ++ (key_text r.bare r.key ++ behind_key r)

abbrev pub IsKey : Bool → Bytes → Type 0
IsKey true key = (key ≢ []) × All IsWord key
IsKey false key = All NoQuote key

-- A bare key is of word bytes, at least one; a quoted key and the value hold no quote.
pub record IsRow (r : Row) : Type 0 where
  pub lead_blank : All IsBlank r.lead
  pub key_ok : IsKey r.bare r.key
  pub before_arrow_blank : All IsBlank r.before_arrow
  pub after_arrow_blank : All IsBlank r.after_arrow
  pub value_ok : All NoQuote r.value
  pub before_comma_blank : All IsBlank r.before_comma
  pub trail_blank : All IsBlank r.trail

pub skip_blanks-append : (b s : Bytes) → All IsBlank b → skip_blanks (b ++ s) ≡ skip_blanks s
unfolding skip_blanks
skip_blanks-append [] s h = refl
skip_blanks-append (c ∷ b) s h = rw (h.0, skip_blanks) (skip_blanks-append b s h.1)

pub skip_blanks-All : (b : Bytes) → All IsBlank b → skip_blanks b ≡ []
unfolding skip_blanks
skip_blanks-All [] h = refl
skip_blanks-All (c ∷ b) h = rw (h.0, skip_blanks) (skip_blanks-All b h.1)

skip_blanks-word : (c : ℕ) (s : Bytes) → IsWord c → skip_blanks (c ∷ s) ≡ c ∷ s
unfolding skip_blanks
skip_blanks-word c s h = elim (Bool-cases (is_blank c)) [
  | inl e ↦ absurd (ground arith)
  | inr e ↦ rw (e, skip_blanks) refl
]

-- A text that does not go on with a word byte.
abbrev LeavesWord : Bytes → Type 0
LeavesWord [] = Unit
LeavesWord (c ∷ s) = is_word c ≡ false

span_word-append : (w s : Bytes) → All IsWord w → LeavesWord s → span_word (w ++ s) ≡ (w, s)
unfolding span_word
span_word-append [] [] h l = refl
span_word-append [] (c ∷ s) h l = rw (l, span_word) refl
span_word-append (c ∷ w) s h l =
    rw (h.0, span_word) (ap (λ p. (c ∷ p.0, p.1)) (span_word-append w s h.1 l))

LeavesWord-blanks : (b s : Bytes) → All IsBlank b → LeavesWord s → LeavesWord (b ++ s)
LeavesWord-blanks [] s h l = l
LeavesWord-blanks (c ∷ b) s h l = ground arith

abbrev pub quoted_of : Bool → Bytes → Bytes
quoted_of true key = []
quoted_of false key = key

abbrev pub bare_of : Bool → Bytes → Bytes
bare_of true key = key
bare_of false key = []

scan_key-key_text :
    (bare : Bool) (key s : Bytes)
    → IsKey bare key
    → LeavesWord s
    → scan_key (skip_blanks (key_text bare key ++ s))
      ≡ some (quoted_of bare key, bare_of bare key, s)
unfolding scan_key skip_blanks
scan_key-key_text true [] s h l = absurd (h.0 refl)
scan_key-key_text true (c ∷ key) s h l =
    ap scan_key (skip_blanks-word c (key ++ s) h.1.0) ∙ elim (Bool-cases (c == b'\'')) [
      | inl e ↦ absurd (ground arith)
      | inr e ↦ rw (e, scan_key) (ap bare_key (span_word-append (c ∷ key) s h.1 l))
    ]
scan_key-key_text false key s h l =
    ap (λ t. Option.map (λ found. (found.0, [], found.1)) (cut b'\'' t))
      (append_assoc key (b'\'' ∷ []) s)
    ∙ ap (Option.map (λ found. (found.0, [], found.1))) (cut-append b'\'' key s h)

pub expect-append : (l s : Bytes) → expect l (l ++ s) ≡ some s
unfolding expect
expect-append [] s = refl
expect-append (c ∷ l) s = rw ((==_iff c c).1 refl, expect) (expect-append l s)

comma_text-skip :
    (comma : Bool) (trail : Bytes)
    → All IsBlank trail
    → is_end (skip_blanks (skip_comma (skip_blanks (comma_text comma ++ trail)))) ≡ true
unfolding skip_blanks
comma_text-skip true trail h = rw (skip_blanks-All trail h) refl
comma_text-skip false trail h = rw (skip_blanks-All trail h) refl

-- What the pattern finds behind the key.
LeavesWord-behind_key : (r : Row) → IsRow r → LeavesWord (behind_key r)
LeavesWord-behind_key r h = LeavesWord-blanks r.before_arrow _ h.before_arrow_blank refl

value_match-append :
    (after value rest : Bytes)
    → All IsBlank after
    → All NoQuote value
    → quoted_text (skip_blanks (after ++ b'\'' ∷ (value ++ b'\'' ∷ rest))) ≡ some (value, rest)
unfolding skip_blanks expect
value_match-append after value rest ha hv =
    ap quoted_text (skip_blanks-append after _ ha) ∙ cut-append b'\'' value rest hv

arrow_match-append :
    (before s : Bytes)
    → All IsBlank before
    → expect (codes "=>") (skip_blanks (before ++ (codes "=>" ++ s))) ≡ some s
unfolding skip_blanks
arrow_match-append before s h =
    ap (expect (codes "=>")) (skip_blanks-append before (codes "=>" ++ s) h)
    ∙ expect-append (codes "=>") s

-- What stands behind the value.
abbrev pub behind_value : Row → Bytes
behind_value r = r.before_comma ++ (comma_text r.comma ++ r.trail)

ended-behind_value :
    (r : Row) → IsRow r → is_end (skip_blanks (skip_comma (skip_blanks (behind_value r)))) ≡ true
ended-behind_value r h =
    ap (λ s. is_end (skip_blanks (skip_comma s)))
      (skip_blanks-append r.before_comma (comma_text r.comma ++ r.trail) h.before_comma_blank)
    ∙ comma_text-skip r.comma r.trail h.trail_blank

pub entry_match-spell_row :
    (r : Row)
    → IsRow r
    → entry_match (spell_row r) ≡ some (quoted_of r.bare r.key, bare_of r.bare r.key, r.value)
unfolding entry_match
entry_match-spell_row r h =
    rw
      (
        skip_blanks-append r.lead (key_text r.bare r.key ++ behind_key r) h.lead_blank,
        scan_key-key_text r.bare r.key (behind_key r) h.key_ok (LeavesWord-behind_key r h),
        arrow_match-append r.before_arrow _ h.before_arrow_blank,
        value_match-append r.after_arrow r.value (behind_value r) h.after_arrow_blank h.value_ok,
        ended-behind_value r h,
      )
      refl
