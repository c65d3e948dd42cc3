-- ===== src/Decoder/Decode/Sheet/Tests.antt =====
-- The telegram of the sample, as its text and as its record.
use irc_eew.Base.{◌≡◌, refl, [], ◌∷◌, ◌++◌}
use irc_eew.Base.Bytes.{codes}
use irc_eew.Decoder.Decode.Sheet.RoundTrip.{decode-text_of}
use irc_eew.Decoder.Decode.Sheet.Sample.{sheet_2011, sheet_2011-IsSheet, retraction_2011}
use irc_eew.Decoder.Decode.Sheet.Record.{telegram_of}
use irc_eew.Decoder.Decode.Sheet.{text_of}
use irc_eew.Decoder.Decode.{decode}

text_retraction :
    text_of retraction_2011
    ≡ 1
      ∷ (codes "\nTKCC 86242  ADTK 12044753\n\n"
          ++ ((197 ∷ 179 ∷ 183 ∷ 212 ∷ 189 ∷ 196 ∷ 51 ∷ 32 ∷ 183 ∷ 188 ∷ 214 ∷ 179 ∷ 10 ∷ 2 ∷ 10 ∷ 2
                ∷ 10 ∷ [])
              ++ (codes "39 03 10 110312134752 C11\n110312134702\n"
                  ++ (codes "ND20110312134730 NCN003 JD////////////// JN///\n"
                      ++ (codes "/// //// ///// /// // // RK///// RT///// RC/////\n"
                          ++ (codes "9999=\n" ++ 3 ∷ []))))))
text_retraction = refl

decode-text_of_example : decode (text_of sheet_2011) ≡ telegram_of sheet_2011
decode-text_of_example = decode-text_of sheet_2011 sheet_2011-IsSheet
