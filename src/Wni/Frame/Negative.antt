-- ===== src/Wni/Frame/Negative.antt =====
-- A Data block that announces a negative length.
use irc_eew.Base.{
  true, ℕ, suc, ◌^◌, ◌<◌, ◌≡◌, ◌∙◌, ap, All, All-map, some, List, [], ◌∷◌, ◌++◌, arith,
}
use irc_eew.Base.Bytes.{Bytes, codes}
use irc_eew.Base.Decimal.{dec, dec-IsDigit, atoi-negative}
use irc_eew.Base.Dict.{get, put}
use irc_eew.Base.Int.{ℤ, negsuc}
use irc_eew.Base.Trim.{trim_cr, trim_space-IsVisible, cut, has_infix, IsVisible}
use irc_eew.Wni.Frame.{
  Parser, World, Frame, goes, classify, on_line, on_blank, on_data, round, body_round, proceed,
  drain, feed, crashed, id_key, length_key,
}
use irc_eew.Wni.Frame.Blocks.{reading, header_line, drain_line, drain-header_line, dec-IsToken}
use irc_eew.Wni.Frame.Termination.{drain_step}

abbrev minus : ℕ → Bytes
minus n = b'-' ∷ dec (suc n)

-- The headers of a Data block of the length -(n + 1), its blank line, and what follows.
abbrev pub negative_block : ℕ → Bytes → Bytes
negative_block n rest =
    header_line id_key (codes "Data")
    ++ (b'\n' ∷ (header_line length_key (minus n) ++ (b'\n' ∷ b'\n' ∷ rest)))

minus-IsVisible : (n : ℕ) → All IsVisible (minus n)
minus-IsVisible n = (omega arith, All-map (λ c h. omega arith) (dec (suc n)) (dec-IsDigit (suc n)))

on_data-negative :
    (p : Parser) (n : ℕ)
    → n < 2 ^ 63
    → on_data p (some (minus n)) ≡ goes (record p { size = negsuc n; has_size = true }) []
unfolding on_data
on_data-negative p n h =
    ground (arith, trim_space-IsVisible (minus n) (minus-IsVisible n), atoi-negative n h)

module _ (w : World) (size : ℤ) (sent : List Bytes) where
  -- The headers of the block, stored.
  header : ℕ → List (Bytes × Bytes)
  header n = put length_key (minus n) (put id_key (codes "Data") [])

  crashing : ℕ → Bytes → Parser
  crashing n rest = record {
    buf = rest;
    header = header n;
    size = negsuc n;
    has_size = true;
    sent = sent;
  }

  drain-crashing :
      (n : ℕ) (rest : Bytes) (frames : List Frame) → drain w (crashing n rest) frames ≡ some crashed
  unfolding crashing proceed round body_round
  drain-crashing n rest frames = drain_step w (crashing n rest) frames

  drain_blank_negative :
      (n : ℕ) (rest : Bytes)
      → n < 2 ^ 63
      → drain w (reading size sent (header n) (b'\n' ∷ rest)) [] ≡ some crashed
  unfolding crashing header proceed on_line on_blank classify trim_cr has_infix cut get put
  drain_blank_negative n rest h =
      drain_line w size sent (header n) [] rest [] tt
      ∙ ap (proceed (drain w) (reading size sent (header n) (b'\n' ∷ rest)) [])
          (on_data-negative (reading size sent (header n) rest) n h)
      ∙ drain-crashing n rest []

  -- On a Data block whose Content-Length is the decimal text of a negative `int`, `Feed` panics,
  -- whatever follows the block.
  pub feed-negative_block :
      (n : ℕ) (rest : Bytes)
      → n < 2 ^ 63
      → feed w (reading size sent [] []) (negative_block n rest) ≡ some crashed
  unfolding feed header
  feed-negative_block n rest h =
      drain-header_line w size sent [] id_key (codes "Data") _ [] (omega arith) (omega arith)
        (omega arith)
      ∙ drain-header_line w size sent _ length_key (minus n) _ [] (omega arith) (omega arith)
          (omega arith, dec-IsToken (suc n))
      ∙ drain_blank_negative n rest h
