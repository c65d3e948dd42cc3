-- ===== src/Base/Decimal/Padded.antt =====
-- Numbers of a fixed count of digits.
use mathlib.Core.List.{concat-ne-nil}
use irc_eew.Base.{
  ℕ, zero, suc, ◌+◌, ◌*◌, ◌/◌, ◌%◌, ◌^◌, ◌<◌, ◌≡◌, refl, some, [], ◌∷◌, ◌++◌, arith, length,
  length-append, All, All-append,
}
use irc_eew.Base.Bytes.{Bytes}
use irc_eew.Base.Decimal.{IsDigit, scan, scan-append, atoi, atoi-IsDigit}
use irc_eew.Base.Int.{pos}

abbrev pub padded : ℕ → ℕ → Bytes
padded zero n = []
padded (suc k) n = padded k (n / 10) ++ (b'0' + n % 10) ∷ []

-- The numbers of `k` digits stay below it.
abbrev pub limit : ℕ → ℕ
limit zero = 1
limit (suc k) = limit k * 10

pub length-padded : (k n : ℕ) → length (padded k n) ≡ k
length-padded zero n = refl
length-padded (suc k) n =
    omega
      (arith, length-append (padded k (n / 10)) ((b'0' + n % 10) ∷ []), length-padded k (n / 10))

pub padded-IsDigit : (k n : ℕ) → All IsDigit (padded k n)
padded-IsDigit zero n = tt
padded-IsDigit (suc k) n =
    All-append IsDigit (padded k (n / 10)) _ (padded-IsDigit k (n / 10)) (omega arith)

scan-padded : (k n : ℕ) → n < limit k → scan 0 (padded k n) ≡ some n
unfolding scan
scan-padded zero n h = ground arith
scan-padded (suc k) n h = rw (scan-append, scan-padded k (n / 10) (omega arith)) (ground arith)

pub atoi-padded :
    (k n : ℕ) → n < limit (suc k) → n < 2 ^ 63 → atoi (padded (suc k) n) ≡ some (pos n)
atoi-padded k n h b =
    atoi-IsDigit (padded (suc k) n) n (concat-ne-nil _ _) (padded-IsDigit (suc k) n)
      (scan-padded (suc k) n h) b
