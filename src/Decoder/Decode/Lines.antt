-- ===== src/Decoder/Decode/Lines.antt =====
-- A telegram read line by line.
use irc_eew.Base.{
  arith, All, All-map, ◌⊎◌, ◌≢◌, false, append-nil, append_assoc, ℕ, ◌≡◌, refl, ◌∙◌, ap, true, List,
  [], ◌∷◌, ◌++◌, Bool-cases, inl, inr,
}
use irc_eew.Base.Bytes.{Bytes}
use irc_eew.Decoder.Decode.{
  is_line_end, close_line, fields, split_lines, decode_line, decode_lines, decode,
}
use irc_eew.Decoder.Telegram.{Telegram, empty_telegram}

close_line-append :
    (line : Bytes) (ls ms : List Bytes) → close_line line (ls ++ ms) ≡ close_line line ls ++ ms
close_line-append [] ls ms = refl
close_line-append (c ∷ line) ls ms = refl

pub fields-append :
    (line a b : Bytes) (end : ℕ)
    → is_line_end end ≡ true
    → fields line (a ++ end ∷ b) ≡ fields line a ++ fields [] b
unfolding fields
fields-append line [] b end e = rw (e, fields) (close_line-append line [] (fields [] b))
fields-append line (c ∷ a) b end e = elim (Bool-cases (is_line_end c)) [
  | inl ends ↦
      rw (ends, fields)
        (ap (close_line line) (fields-append [] a b end e)
          ∙ close_line-append line (fields [] a) (fields [] b))
  | inr goes_on ↦ rw (goes_on, fields) (fields-append (line ++ c ∷ []) a b end e)
]

pub decode_lines-append :
    (t : Telegram) (a b : List Bytes) → decode_lines t (a ++ b) ≡ decode_lines (decode_lines t a) b
unfolding decode_lines
decode_lines-append t [] b = refl
decode_lines-append t (line ∷ a) b = decode_lines-append (decode_line t line) a b

abbrev pub InLine : ℕ → Type 0
InLine c = is_line_end c ≡ false

pub fields_line : (done l : Bytes) → All InLine l → fields done l ≡ close_line (done ++ l) []
unfolding fields
fields_line done [] h = rw (append-nil done) refl
fields_line done (c ∷ l) h =
    rw (h.0, fields)
      (fields_line (done ++ c ∷ []) l h.1
        ∙ ap (λ x. close_line x []) (append_assoc done (c ∷ []) l))

-- A CR or a LF.
abbrev pub IsLineEnd : ℕ → Type 0
IsLineEnd c = (c ≡ 13) ⊎ (c ≡ 10)

is_line_end-IsLineEnd : (c : ℕ) → IsLineEnd c → is_line_end c ≡ true
is_line_end-IsLineEnd c (inl e) = ground arith
is_line_end-IsLineEnd c (inr e) = ground arith

-- The bytes between two line ends, at least one, with no line end among them, are one line: what
-- stands before them is decoded first, then the five patterns are tried on the line once, and then
-- the lines behind it are read. Each line end is a CR or a LF.
pub decode-append :
    (a line b : Bytes) (c end end' : ℕ)
    → IsLineEnd end
    → IsLineEnd end'
    → All (λ x. (x ≢ 13) × (x ≢ 10)) (c ∷ line)
    → decode (a ++ end ∷ ((c ∷ line) ++ end' ∷ b))
      ≡ decode_lines (decode_line (decode a) (c ∷ line)) (split_lines b)
unfolding decode split_lines decode_lines
decode-append a line b c end end' e e' h =
    ap (decode_lines empty_telegram)
      (fields-append [] a ((c ∷ line) ++ end' ∷ b) end (is_line_end-IsLineEnd end e))
    ∙ decode_lines-append empty_telegram (fields [] a) (fields [] ((c ∷ line) ++ end' ∷ b))
    ∙ ap (decode_lines (decode_lines empty_telegram (fields [] a))) (
        fields-append [] (c ∷ line) b end' (is_line_end-IsLineEnd end' e')
        ∙ ap (λ ls. ls ++ fields [] b)
            (fields_line [] (c ∷ line) (All-map (λ x n. ground arith) (c ∷ line) h)))
