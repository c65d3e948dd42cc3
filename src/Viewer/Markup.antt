-- ===== src/Viewer/Markup.antt =====
-- What the viewer gives its templates as HTML: text without markup, and links.
use irc_eew.Base.Bytes.{Bytes, codes}
use irc_eew.Base.{ℕ, ◌≢◌, [], ◌∷◌, ◌++◌, All, All-append, arith}
use irc_eew.Viewer.{escape_byte, escaped, link}

-- No tag can begin or end here, and no attribute can end.
abbrev pub IsInert : ℕ → Type 0
IsInert c = (c ≢ b'<') × (c ≢ b'>') × (c ≢ b'"') × (c ≢ b'\'')

pub data IsMarkup : Bytes → Type 0 where
  inert : (s : Bytes) → All IsInert s → IsMarkup s
  anchor :
      (href label : Bytes)
      → All IsInert href
      → All IsInert label
      → IsMarkup (codes "<a href=\"" ++ (href ++ (codes "\">" ++ (label ++ codes "</a>"))))
  both : (s t : Bytes) → IsMarkup s → IsMarkup t → IsMarkup (s ++ t)

escape_byte-IsInert : (c : ℕ) → All IsInert (escape_byte c)
unfolding escape_byte
escape_byte-IsInert c = ground arith

escaped-IsInert : (s : Bytes) → All IsInert (escaped s)
unfolding escaped
escaped-IsInert [] = tt
escaped-IsInert (c ∷ s) =
    All-append IsInert (escape_byte c) (escaped s) (escape_byte-IsInert c) (escaped-IsInert s)

pub escaped-IsMarkup : (s : Bytes) → IsMarkup (escaped s)
escaped-IsMarkup s = inert (escaped s) (escaped-IsInert s)

pub link-IsMarkup : (href label : Bytes) → IsMarkup (link href label)
unfolding link
link-IsMarkup href label =
    anchor (escaped href) (escaped label) (escaped-IsInert href) (escaped-IsInert label)
