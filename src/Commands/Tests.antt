-- ===== src/Commands/Tests.antt =====
-- Levels, and a replay of a file that cannot be read and one that can.
use irc_eew.Base.{◌≡◌, refl, Option, none, some, [], ◌∷◌, if◌then◌else◌}
use irc_eew.Base.Bytes.{Bytes, codes, equal}
use irc_eew.Base.Trim.{has_prefix}
use irc_eew.Commands.{warn, info, lower_from, to_lower, parse_log_level, replay, replay_file}

levels :
    (parse_log_level (codes "Warning") ≡ some warn)
    × (parse_log_level (0xC4 ∷ 0xB0 ∷ codes "NFO") ≡ some info)
    × (parse_log_level (codes "trace") ≡ none)
unfolding parse_log_level to_lower lower_from has_prefix
levels = (refl, refl, refl)

abbrev one_file : Bytes → Option Bytes
one_file path = if equal path (codes "a") then some [] else none

passed_over : replay one_file [] (codes "b" ∷ codes "a" ∷ []) ≡ replay one_file [] (codes "a" ∷ [])
unfolding replay replay_file
passed_over = refl
