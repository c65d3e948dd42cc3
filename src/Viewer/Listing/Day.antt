-- ===== src/Viewer/Listing/Day.antt =====
-- The names on the page of a day.
use irc_eew.Base.Bytes.{Bytes}
use irc_eew.Base.Int.{ℤ}
use irc_eew.Base.Strings.{less}
use irc_eew.Base.{not, ◌&&◌, if◌then◌else◌, Bool, Option, some, List, [], ◌∷◌}
use irc_eew.Viewer.Listing.Names.{is_telegram_name}
use irc_eew.Viewer.Listing.Order.{earlier}
use irc_eew.Viewer.Listing.{split_eew_name}

abbrev by_parts : Bytes → Bytes → Option (Bytes × ℤ) → Option (Bytes × ℤ) → Bool
by_parts a b (some p) (some q) = earlier p q
by_parts a b _ _ = less a b

-- By event id and then by number, for names of telegrams.
abbrev pub earlier_name : Bytes → Bytes → Bool
earlier_name a b = by_parts a b (split_eew_name a) (split_eew_name b)

-- A file, and no directory, whose name is that of a telegram: digits, a dot, and digits.
abbrev pub is_telegram : Bytes × Bool → Bool
is_telegram e = not e.1 && is_telegram_name e.0

-- The entries that pass a test.
abbrev pub keep : (Bytes × Bool → Bool) → List (Bytes × Bool) → List (Bytes × Bool)
keep passes [] = []
keep passes (e ∷ es) = if passes e then e ∷ keep passes es else keep passes es
