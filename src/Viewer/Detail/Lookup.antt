-- ===== src/Viewer/Detail/Lookup.antt =====
-- The detail view finds the file under the name that the store gives it.
use irc_eew.Archive.{Files, cut, file_name, date_of, final_path}
use irc_eew.Base.Bytes.{Bytes}
use irc_eew.Base.Decimal.{is_digit, dec, dec-IsDigit, length-dec, show}
use irc_eew.Base.Int.{pos}
use irc_eew.Base.Path.Plain.{NoSlash, Plain}
use irc_eew.Base.Path.Under.Prefix.{has_prefix-Under}
use irc_eew.Base.Path.Under.{abs-Under}
use irc_eew.Base.Trim.{has_prefix}
use irc_eew.Base.Path.{join, abs}
use irc_eew.Base.Regex.Match.{Of}
use irc_eew.Base.{
  ℕ, ◌≤◌, ◌<◌, ◌≡◌, refl, sym, ◌∙◌, ap, true, false, Option, none, some, [], ◌∷◌, ◌++◌, arith, ltb,
  if◌then◌else◌, length, take, drop, take-append, drop-append, take-append_of_le, length-append,
  length-drop, length-take_of_le, All, All-append, All-map, All-take, All-drop, inl, inr, ◌⊎◌,
  subst,
}
use irc_eew.Viewer.{Config}
use irc_eew.Viewer.Detail.{
  invalid_name, not_found, page, page_for, page_at, detail_handler, all_digits, is_number_part,
  is_detail_name, telegram_path,
}

digits-NoSlash : (s : Bytes) → Of is_digit s → NoSlash s
digits-NoSlash s h = All-map (λ c e. ground arith) s h

digit_first-Plain : (c : ℕ) (s : Bytes) → is_digit c ≡ true → NoSlash s → Plain (c ∷ s)
digit_first-Plain c s d n = record {
  no_slash = (ground arith, n);
  not_empty = refl;
  not_dot = ground arith;
  not_dots = ground arith;
}

digits-Plain : (s : Bytes) → Of is_digit s → 0 < length s → Plain s
digits-Plain [] h l = absurd (omega arith)
digits-Plain (c ∷ s) h l = digit_first-Plain c s h.0 (digits-NoSlash s h.1)

name-Plain : (id s : Bytes) → Of is_digit id → 0 < length id → NoSlash s → Plain (id ++ s)
name-Plain [] s h l n = absurd (omega arith)
name-Plain (c ∷ id) s h l n =
    digit_first-Plain c (id ++ s) h.0 (All-append _ id s (digits-NoSlash id h.1) n)

dec-digits : (n : ℕ) → Of is_digit (dec n)
dec-digits n = All-map (λ c d. ground arith) (dec n) (dec-IsDigit n)

all_digits-Of : (s : Bytes) → Of is_digit s → all_digits s ≡ true
all_digits-Of [] h = refl
all_digits-Of (c ∷ s) h = rw (h.0, all_digits-Of s h.1) refl

number_part :
    (s : Bytes)
    → (length s ≡ 1) ⊎ (length s ≡ 2)
    → all_digits s ≡ true
    → is_number_part (b'.' ∷ s) ≡ true
number_part s (inl l) d = rw (l, d) refl
number_part s (inr l) d = rw (l, d) refl

module _ (id : Bytes) (len : length id ≡ 14) (digits : Of is_digit id) where
  cut-Plain : (from to : ℕ) → from < to → to ≤ 14 → Plain (cut from to id)
  cut-Plain from to l h =
      digits-Plain (cut from to id) (All-drop _ from (take to id) (All-take _ to id digits))
        (omega (arith, length-drop from (take to id), length-take_of_le to id (omega (arith, len))))

  cut-append : (from to : ℕ) (s : Bytes) → to ≤ 14 → cut from to (id ++ s) ≡ cut from to id
  cut-append from to s h = ap (drop from) (take-append_of_le to id s (omega (arith, len)))

  module _ (n : ℕ) where
    name : Bytes
    name = file_name id (pos n)

    number : show (pos n) ≡ dec n
    unfolding show
    number = refl

    number-digits : Of is_digit (show (pos n))
    number-digits = rw number (dec-digits n)

    date-Plain : All Plain (cut 0 4 name ∷ cut 4 6 name ∷ cut 6 8 name ∷ name ∷ [])
    unfolding name
    date-Plain = (
      rw (cut-append 0 4 (b'.' ∷ show (pos n)) (omega arith))
          (cut-Plain 0 4 (omega arith) (omega arith)),
      (
        rw (cut-append 4 6 (b'.' ∷ show (pos n)) (omega arith))
            (cut-Plain 4 6 (omega arith) (omega arith)),
        (
          rw (cut-append 6 8 (b'.' ∷ show (pos n)) (omega arith))
              (cut-Plain 6 8 (omega arith) (omega arith)),
          (
            name-Plain id (b'.' ∷ show (pos n)) digits (omega (arith, len))
                (refl, digits-NoSlash _ number-digits),
            tt,
          ),
        ),
      ),
    )

    long_enough : ltb (length name) 8 ≡ false
    unfolding name
    long_enough = rw (length-append id (b'.' ∷ show (pos n)), len) (ground arith)

    abbrev date : Bytes × Bytes × Bytes
    date = (cut 0 4 name, cut 4 6 name, cut 6 8 name)

    date-date_of : date ≡ date_of id
    unfolding name
    date-date_of =
        rw
          (
            cut-append 0 4 (b'.' ∷ show (pos n)) (omega arith),
            cut-append 4 6 (b'.' ∷ show (pos n)) (omega arith),
            cut-append 6 8 (b'.' ∷ show (pos n)) (omega arith),
            len,
          )
          refl

    abbrev path_by : Bytes → Bytes × Bytes × Bytes → Bytes
    path_by data_dir d = join (data_dir ∷ d.0 ∷ d.1 ∷ d.2 ∷ name ∷ [])

    stays_under :
        (cwd : Bytes) (c : ℕ) (data_dir : Bytes)
        → has_prefix
            (abs (b'/' ∷ cwd) (path_by (c ∷ data_dir) date))
            (abs (b'/' ∷ cwd) (c ∷ data_dir))
          ≡ true
    stays_under cwd c data_dir =
        has_prefix-Under (cut 0 4 name) (cut 4 6 name ∷ cut 6 8 name ∷ name ∷ []) date-Plain _ _ (
          abs-Under (cut 0 4 name) (cut 4 6 name ∷ cut 6 8 name ∷ name ∷ []) date-Plain cwd c
            data_dir)

    -- The path that the detail view makes of a telegram's file name is the one that the store gives the
    -- file, and the check that it stays below the data directory passes; the id has 14 digits,
    -- the working directory is absolute, and the data directory is given.
    pub telegram_path-final_path :
        (cwd : Bytes) (c : ℕ) (data_dir : Bytes)
        → telegram_path (b'/' ∷ cwd) (c ∷ data_dir) (file_name id (pos n))
          ≡ some (final_path (c ∷ data_dir) id (pos n))
    unfolding telegram_path final_path name
    telegram_path-final_path cwd c data_dir =
        ap
          (λ b.
            if b
            then none
            else if has_prefix (abs (b'/' ∷ cwd) (path_by (c ∷ data_dir) date))
                (abs (b'/' ∷ cwd) (c ∷ data_dir))
            then some (path_by (c ∷ data_dir) date)
            else none)
          long_enough
        ∙ ap (λ b. if b then some (path_by (c ∷ data_dir) date) else none)
            (stays_under cwd c data_dir)
        ∙ ap (λ d. some (path_by (c ∷ data_dir) d)) date-date_of

    -- The number has four digits at most.
    pub is_detail_name-file_name : n < 100 → is_detail_name (file_name id (pos n)) ≡ true
    unfolding is_detail_name
    is_detail_name-file_name h =
        rw (taken, dropped, len, all_digits-Of id digits)
          (number_part (show (pos n))
            (subst (λ s. (length s ≡ 1) ⊎ (length s ≡ 2)) (sym number) (length-dec n h))
            (all_digits-Of _ number-digits))
      where
        taken : take 14 (file_name id (pos n)) ≡ id
        taken = ap (λ k. take k (file_name id (pos n))) (sym len) ∙ take-append id _

        dropped : drop 14 (file_name id (pos n)) ≡ b'.' ∷ show (pos n)
        dropped = ap (λ k. drop k (file_name id (pos n))) (sym len) ∙ drop-append id _

-- The page of a file that can be read.
pub detail_handler-found :
    {S : Type 0} (files : Files S) (cwd : Bytes) (decoder : Bytes → Option Bytes) (cfg : Config)
    (s : S) (name path raw : Bytes)
    → is_detail_name name ≡ true
    → telegram_path cwd cfg.data_dir name ≡ some path
    → files.read_file s path ≡ some raw
    → detail_handler files cwd decoder cfg s name ≡ page (page_for decoder cfg name raw)
unfolding detail_handler page_at
detail_handler-found files cwd decoder cfg s name path raw valid found read =
    ap
      (λ b.
        if b
        then page_at files cwd decoder cfg s name (telegram_path cwd cfg.data_dir name)
        else invalid_name)
      valid
    ∙ ap (page_at files cwd decoder cfg s name) found
    ∙ ap (λ o. elim o [ none ↦ not_found | some raw ↦ page (page_for decoder cfg name raw) ]) read
