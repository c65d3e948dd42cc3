-- ===== src/Message/Plain/Links.antt =====
-- What is left of a text without its links.
use irc_eew.Base.{
  ℕ, ◌+◌, ◌-◌, ◌≡◌, ◌≢◌, refl, sym, ◌∙◌, ap, false, some, [], ◌∷◌, ◌++◌, arith, All, append_assoc,
  append-nil, length, length-append, ◌==◌,
}
use irc_eew.Base.Bytes.{Bytes}
use irc_eew.Message.{to_byte, link, strip_from}

-- No byte begins a link.
abbrev pub IsPlain : Bytes → Type 0
IsPlain s = All (λ c. c ≢ b'<') s

pub strip_from-IsPlain : (a s : Bytes) → IsPlain a → strip_from 0 (a ++ s) ≡ a ++ strip_from 0 s
unfolding strip_from
strip_from-IsPlain [] s h = refl
strip_from-IsPlain (c ∷ a) s h =
    rw (other c h.0, strip_from) (ap (◌∷◌ c) (strip_from-IsPlain a s h.1))
  where
    other : (c : ℕ) → c ≢ b'<' → (c == b'<') ≡ false
    other c h = ground arith

pub strip_from-all : (s : Bytes) → IsPlain s → strip_from 0 s ≡ s
strip_from-all s h =
    ap (strip_from 0) (sym (append-nil s))
    ∙ strip_from-IsPlain s [] h
    ∙ unfold strip_from in append-nil s

pub strip_from-drop : (a s : Bytes) → strip_from (length a) (a ++ s) ≡ strip_from 0 s
unfolding strip_from
strip_from-drop [] s = refl
strip_from-drop (c ∷ a) s = strip_from-drop a s

pub to_byte-append :
    (c : ℕ) (a s : Bytes)
    → All (λ x. (x ≢ c) × (x ≢ b'\n')) a
    → to_byte c (a ++ c ∷ s) ≡ some (a, s)
unfolding to_byte
to_byte-append c [] s h = ground arith
to_byte-append c (x ∷ a) s h = ground (arith, to_byte-append c a s h.1)

pub link-append :
    (uri label rest : Bytes)
    → All (λ x. (x ≢ b'|') × (x ≢ b'\n')) uri
    → All (λ x. (x ≢ b'>') × (x ≢ b'\n')) label
    → link (uri ++ b'|' ∷ (label ++ b'>' ∷ rest)) ≡ some (label, rest)
unfolding link
link-append uri label rest u l =
    rw (link, to_byte-append b'|' uri (label ++ b'>' ∷ rest) u) (to_byte-append b'>' label rest l)

-- What `strip_from` does with the result of `link`.
pub strip_link :
    (s label rest markup : Bytes)
    → link s ≡ some (label, rest)
    → s ≡ markup ++ rest
    → strip_from 0 (b'<' ∷ s) ≡ label ++ strip_from 0 rest
unfolding strip_from
strip_link s label rest markup found parted =
    rw (found, strip_from)
      (ap (◌++◌ label) (
        ap (λ k. strip_from k s)
          (ap (λ x. length x - length rest) parted ∙ passed (length-append markup rest))
        ∙ ap (strip_from (length markup)) parted
        ∙ strip_from-drop markup rest))
  where
    passed :
        length (markup ++ rest) ≡ length markup + length rest
        → length (markup ++ rest) - length rest ≡ length markup
    passed e = omega (arith, e)

-- A text with one link is stripped of its markup.
pub strip_from-link :
    (before uri label rest : Bytes)
    → IsPlain before
    → All (λ x. (x ≢ b'|') × (x ≢ b'\n')) uri
    → All (λ x. (x ≢ b'>') × (x ≢ b'\n')) label
    → IsPlain rest
    → strip_from 0 (before ++ (b'<' ∷ (uri ++ (b'|' ∷ (label ++ (b'>' ∷ rest))))))
      ≡ before ++ (label ++ rest)
strip_from-link before uri label rest p u l r =
    strip_from-IsPlain before (b'<' ∷ (uri ++ (b'|' ∷ (label ++ (b'>' ∷ rest))))) p
    ∙ ap (◌++◌ before) (
        strip_link (uri ++ (b'|' ∷ (label ++ (b'>' ∷ rest)))) label rest
          (uri ++ (b'|' ∷ (label ++ b'>' ∷ []))) (link-append uri label rest u l)
          (ap (λ x. uri ++ (b'|' ∷ x)) (sym (append_assoc label (b'>' ∷ []) rest))
            ∙ sym (append_assoc uri (b'|' ∷ (label ++ b'>' ∷ [])) rest))
        ∙ ap (◌++◌ label) (strip_from-all rest r))

-- A byte of a printed number.
