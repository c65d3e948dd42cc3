-- ===== src/Base/Split.antt =====
-- `strings.Split(s, "\n")` and the join of lines.
use irc_eew.Base.{◌==◌, true, false, List, [], ◌∷◌, ◌++◌}
use irc_eew.Base.Bytes.{Bytes}

-- `strings.Split(s, "\n")`, with the line read so far.
unfoldable pub split_from : Bytes → Bytes → List Bytes
split_from line [] = line ∷ []
split_from line (c ∷ s) = elim (c == b'\n') [
  | true ↦ line ∷ split_from [] s
  | false ↦ split_from (line ++ c ∷ []) s
]
