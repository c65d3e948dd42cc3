-- ===== src/Wni/Frame/Blocks.antt =====
-- One block behind another: what the loop does with a whole line, and with a whole body.
use irc_eew.Base.{
  ℕ, ◌<◌, ◌^◌, ◌≡◌, ◌≢◌, refl, ◌∙◌, ap, Bool, true, false, some, List, [], ◌∷◌, ◌++◌, arith,
  if◌then◌else◌, length, length-append, take-append, drop-append, All, All-map, All-append,
  append-nil, get_or,
}
use irc_eew.Base.Bytes.{Bytes, codes}
use irc_eew.Base.Decimal.{dec, dec-IsDigit, atoi-dec}
use irc_eew.Base.Dict.{get, put}
use irc_eew.Base.Int.{ℤ, pos}
use irc_eew.Base.Trim.{
  cut, cut-append, trim_cr, trim_cr-ne, not-has_infix, trim_space, trim_space-IsVisible,
  trim_space-blank, has_infix,
}
use irc_eew.Wni.Frame.{
  Frame, telegram, World, Parser, goes, fails, field, blank, classify, on_line, take_line,
  line_round, body_round, round, proceed, drain, fed, failed, ack_message, ping_line, on_ping,
  id_key, length_key, md5_key, on_blank, on_data,
}
use irc_eew.Wni.Frame.Termination.{drain_step}

-- A byte that a header of the protocol may hold: visible, and none that begins a ping.
abbrev pub IsToken : ℕ → Type 0
IsToken c = (32 < c) × (c < 127) × (c ≢ b'G')

-- A parser that reads lines.
abbrev pub reading : ℤ → List Bytes → List (Bytes × Bytes) → Bytes → Parser
reading size sent header buf = record {
  buf = buf;
  header = header;
  size = size;
  has_size = false;
  sent = sent;
}

-- A parser that waits for `n` bytes of a body.
abbrev pub awaiting : ℕ → List Bytes → List (Bytes × Bytes) → Bytes → Parser
awaiting n sent header buf = record {
  buf = buf;
  header = header;
  size = pos n;
  has_size = true;
  sent = sent;
}

-- A header line as the protocol writes it.
abbrev pub header_line : Bytes → Bytes → Bytes
header_line name val = name ++ (b':' ∷ b' ' ∷ val)

-- The frame of a body under `header`.
abbrev pub data_frame : List (Bytes × Bytes) → Bytes → Frame
data_frame header body = record {
  kind = telegram;
  id = [];
  header = header;
  md5 = get_or (get md5_key header) [];
  body = body;
}

-- A decimal number is a token, and has no blanks to trim.
pub dec-IsToken : (n : ℕ) → All IsToken (dec n)
dec-IsToken n = All-map (λ c h. omega arith) (dec n) (dec-IsDigit n)

pub trim_space-dec : (n : ℕ) → trim_space (dec n) ≡ dec n
trim_space-dec n =
    trim_space-IsVisible (dec n) (All-map (λ c h. omega arith) (dec n) (dec-IsDigit n))

classify-header_line :
    (name val : Bytes)
    → All IsToken name
    → All (λ c. c ≢ b':') name
    → All IsToken val
    → classify (trim_cr (header_line name val)) ≡ field name val
unfolding classify
classify-header_line name val n colon v = rw (
  trim_cr-ne line (whole (λ c. c ≢ b'\r') (omega arith) (omega arith) λ c h. omega arith),
  not-has_infix b'G' line _ (whole (λ c. c ≢ b'G') (omega arith) (omega arith) λ c h. h.2),
  cut-append b':' name (b' ' ∷ val) colon,
  trim_space-IsVisible name (All-map (λ c h. (h.0, h.1)) name n),
  trim_space-blank val,
  trim_space-IsVisible val (All-map (λ c h. (h.0, h.1)) val v),
)
  where
    line : Bytes
    line = header_line name val

    whole : (P : ℕ → Type 0) → P b':' → P b' ' → ((c : ℕ) → IsToken c → P c) → All P line
    whole P colon space t = All-append P name _ (All-map t name n) (colon, (space, All-map t val v))

on_data-dec :
    (p : Parser) (n : ℕ)
    → n < 2 ^ 63
    → on_data p (some (dec n)) ≡ goes (record p { size = pos n; has_size = true }) []
unfolding on_data
on_data-dec p n h = ground (arith, trim_space-dec n, atoi-dec n h)

module _ (w : World) (size : ℤ) (sent : List Bytes) (header : List (Bytes × Bytes)) where
  -- A line and its line feed.
  pub drain_line :
      (line rest : Bytes) (frames : List Frame)
      → All (λ c. c ≢ b'\n') line
      → drain w (reading size sent header (line ++ b'\n' ∷ rest)) frames
        ≡ proceed
            (drain w)
            (reading size sent header (line ++ b'\n' ∷ rest))
            frames
            (on_line w (reading size sent header rest) (classify (trim_cr line)))
  unfolding round line_round take_line
  drain_line line rest frames h =
      drain_step w _ frames
      ∙ ap
          (λ o.
            proceed (drain w) (reading size sent header (line ++ b'\n' ∷ rest)) frames
              (take_line w (reading size sent header (line ++ b'\n' ∷ rest)) o))
          (cut-append b'\n' line rest h)

  -- A header line is stored.
  pub drain-header_line :
      (name val rest : Bytes) (frames : List Frame)
      → All IsToken name
      → All (λ c. c ≢ b':') name
      → All IsToken val
      → drain w (reading size sent header (header_line name val ++ b'\n' ∷ rest)) frames
        ≡ drain w (reading size sent (put name val header) rest) frames
  unfolding proceed on_line
  drain-header_line name val rest frames n colon v =
      let whole = header_line name val in
      let p = reading size sent header (whole ++ b'\n' ∷ rest) in
      drain_line whole rest frames (
        All-append _ name _ (All-map (λ c h. omega arith) name n)
          (omega arith, (omega arith, All-map (λ c h. omega arith) val v)))
      ∙ ap (λ l. proceed (drain w) p frames (on_line w (reading size sent header rest) l))
          (classify-header_line name val n colon v)
      ∙ ap (drain w (reading size sent (put name val header) rest)) (append-nil frames)

  -- The blank line under the headers of a body of `n` bytes.
  pub drain_blank_data :
      (n : ℕ) (rest : Bytes) (frames : List Frame)
      → get id_key header ≡ some (codes "Data")
      → get length_key header ≡ some (dec n)
      → n < 2 ^ 63
      → drain w (reading size sent header (b'\n' ∷ rest)) frames
        ≡ drain w (awaiting n sent header rest) frames
  unfolding proceed on_line on_blank classify trim_cr has_infix cut
  drain_blank_data n rest frames i l h =
      drain_line [] rest frames tt
      ∙ ap (λ r. proceed (drain w) (reading size sent header (b'\n' ∷ rest)) frames r) blank_round
      ∙ ap (drain w (awaiting n sent header rest)) (append-nil frames)
    where
      blank_round :
          on_line w (reading size sent header rest) blank ≡ goes (awaiting n sent header rest) []
      blank_round = rw (i, l) (on_data-dec (reading size sent header rest) n h)

module _ (w : World) (sent : List Bytes) (header : List (Bytes × Bytes)) where
  -- A body with all its bytes at hand.
  pub drain_body :
      (body rest : Bytes) (frames : List Frame)
      → drain w (awaiting (length body) sent header (body ++ rest)) frames
        ≡ drain w (reading (pos (length body)) sent [] rest) (frames ++ data_frame header body ∷ [])
  unfolding proceed round body_round
  drain_body body rest frames =
      drain_step w _ frames
      ∙ ap (proceed (drain w) (awaiting (length body) sent header (body ++ rest)) frames) taken
    where
      taken :
          body_round (awaiting (length body) sent header (body ++ rest)) (pos (length body))
          ≡ goes (reading (pos (length body)) sent [] rest) (data_frame header body ∷ [])
      taken = ground (arith, length-append body rest, take-append body rest, drop-append body rest)

module _ (w : World) (sent : List Bytes) (size : ℤ) where
  -- With no byte at hand there is nothing to do.
  pub drain-nil :
      (frames : List Frame)
      → drain w (reading size sent [] []) frames ≡ some (fed (reading size sent [] []) frames)
  unfolding proceed round line_round take_line cut
  drain-nil frames = drain_step w (reading size sent [] []) frames

module _ (w : World) (size : ℤ) (sent : List Bytes) where
  -- The ping alone at hand.
  pub drain_ping :
      (frames : List Frame)
      → drain w (reading size sent [] (ping_line ++ b'\n' ∷ [])) frames
        ≡ some (
            if w.write_ok (length sent)
            then fed (reading size (sent ++ ack_message (w.now (length sent)) ∷ []) [] []) frames
            else failed
                (reading size (sent ++ ack_message (w.now (length sent)) ∷ []) [] [])
                frames)
  unfolding proceed on_line on_ping classify trim_cr has_infix
  drain_ping frames =
      drain_line w size sent [] ping_line [] frames (omega arith)
      ∙ by_write (w.write_ok (length sent))
    where
      asked : List Bytes
      asked = sent ++ ack_message (w.now (length sent)) ∷ []

      p : Parser
      p = reading size sent [] (ping_line ++ b'\n' ∷ [])

      by_write :
          (b : Bool)
          → proceed
              (drain w)
              p
              frames
              (if b then goes (reading size asked [] []) [] else fails (reading size asked [] []))
            ≡ some (
                if b
                then fed (reading size asked [] []) frames
                else failed (reading size asked [] []) frames)
      by_write true =
          drain-nil w asked size (frames ++ [])
          ∙ ap (λ fs. some (fed (reading size asked [] []) fs)) (append-nil frames)
      by_write false = refl

  -- The ping before its line feed.
  pub drain-ping_line :
      (frames : List Frame)
      → drain w (reading size sent [] ping_line) frames
        ≡ some (fed (reading size sent [] ping_line) frames)
  unfolding proceed round line_round take_line cut
  drain-ping_line frames = drain_step w (reading size sent [] ping_line) frames
