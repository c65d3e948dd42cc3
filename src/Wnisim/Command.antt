-- ===== src/Wnisim/Command.antt =====
-- cmd/wnisim/main.go: what the command sends to a client. A file is what `ReadFile` gives for it;
-- the ticks of the Keep-Alive goroutine, by where they fall among the writes of the loop, are an
-- argument.
pub mod Received
pub mod Writes
pub mod Pinged
use mathlib.Core.List.{flatten}
use irc_eew.Base.Bytes.{Bytes, codes}
use irc_eew.Base.Int.{ℤ, is_positive}
use irc_eew.Base.Path.{join}
use irc_eew.Base.Strings.{sort_strings}
use irc_eew.Base.{
  ℕ, zero, suc, ◌+◌, ◌%◌, ◌≡◌, refl, ◌∙◌, ap, Bool, true, false, ◌&&◌, Option, none, some, List, [],
  ◌∷◌, ◌++◌, ltb, ◌==◌, if◌then◌else◌,
}
use irc_eew.Wnisim.Delivery.{stream}
use irc_eew.Wnisim.{
  send_keep_alive, send_data, send_get_ping, send_data_then_get_ping, send_response_ok,
}

abbrev plain_files : Bytes → List (Bytes × Bool) → List Bytes
plain_files dir [] = []
plain_files dir ((name, is_dir) ∷ entries) =
    let rest = plain_files dir entries in if is_dir then rest else join (dir ∷ name ∷ []) ∷ rest

-- `telegramFiles`, on what `ReadDir` gives.
unfoldable pub telegram_files : Bytes → Option (List (Bytes × Bool)) → Option (List Bytes)
telegram_files dir none = none
telegram_files dir (some entries) = some (sort_strings (plain_files dir entries))

-- When the ping goes out: on its own before the telegram, or behind it in one write.
pub data PingMode : Type 0 where
  before coalesced : PingMode

-- `getPingEvery > 0 && i%getPingEvery == 0`
abbrev pub is_ping_due : ℕ → ℕ → Bool
is_ping_due every i = ltb 0 every && (i % every == 0)

-- Some Keep-Alive blocks, before other writes.
pub beats : ℕ → List Bytes → List Bytes
beats zero writes = writes
beats (suc k) writes = send_keep_alive ∷ beats k writes

-- The writes of the loop with those of the goroutine: the numbers say how many of its writes go out
-- before each write of the loop, and how many behind the last one.
unfoldable pub with_ticks : List ℕ → List Bytes → List Bytes
unfolding beats
with_ticks [] writes = writes
with_ticks (k ∷ ticks) [] = beats k []
with_ticks (k ∷ ticks) (b ∷ writes) = beats k (b ∷ with_ticks ticks writes)

module _ (md5_hex : Bytes → Bytes) (write_ok : ℕ → Bool) where
  -- The `n`-th write, and what follows if it succeeds.
  then_writes : ℕ → Bytes → List Bytes → List Bytes
  then_writes n b later = b ∷ (if write_ok n then later else [])

  -- The writes for one telegram; `later` takes the number of the next write.
  telegram_writes : PingMode → Bool → ℕ → Bytes → (ℕ → List Bytes) → List Bytes
  unfolding then_writes
  telegram_writes coalesced true n body later =
      then_writes n (send_data_then_get_ping (md5_hex body) body) (later (suc n))
  telegram_writes before true n body later =
      then_writes n send_get_ping
        (then_writes (suc n) (send_data (md5_hex body) body) (later (suc (suc n))))
  telegram_writes mode false n body later =
      then_writes n (send_data (md5_hex body) body) (later (suc n))

  -- The loop of `handleConn` over the files, from index `i` and write `n` on.
  unfoldable pub file_writes : PingMode → ℕ → ℕ → ℕ → List (Option Bytes) → List Bytes
  unfolding telegram_writes
  file_writes mode every i n [] = []
  file_writes mode every i n (none ∷ files) = file_writes mode every (suc i) n files
  file_writes mode every i n (some [] ∷ files) = file_writes mode every (suc i) n files
  file_writes mode every i n (some (c ∷ body) ∷ files) =
      telegram_writes mode (is_ping_due every i) n (c ∷ body)
        (λ m. file_writes mode every (suc i) m files)

  -- `handleConn`, when the client has logged in. The goroutine starts behind the response, if the
  -- interval is positive.
  unfoldable pub handle_conn : PingMode → ℕ → ℤ → List ℕ → List (Option Bytes) → List Bytes
  unfolding then_writes with_ticks
  handle_conn mode every keep_alive ticks files =
      then_writes 0 send_response_ok (
        with_ticks (if is_positive keep_alive then ticks else [])
          (file_writes mode every 0 1 files))

-- The telegrams of the files that can be read and are not empty.
unfoldable pub telegrams_in : (Bytes → Bytes) → List (Option Bytes) → List (Bytes × Bytes)
telegrams_in md5_hex [] = []
telegrams_in md5_hex (none ∷ files) = telegrams_in md5_hex files
telegrams_in md5_hex (some [] ∷ files) = telegrams_in md5_hex files
telegrams_in md5_hex (some (c ∷ body) ∷ files) =
    (md5_hex (c ∷ body), c ∷ body) ∷ telegrams_in md5_hex files

pub file_writes-stream :
    (md5_hex : Bytes → Bytes) (mode : PingMode) (i n : ℕ) (files : List (Option Bytes))
    → flatten (file_writes md5_hex (λ k. true) mode 0 i n files)
      ≡ stream (telegrams_in md5_hex files)
unfolding file_writes telegram_writes then_writes flatten telegrams_in
file_writes-stream md5_hex mode i n [] = refl
file_writes-stream md5_hex mode i n (none ∷ files) = file_writes-stream md5_hex mode (suc i) n files
file_writes-stream md5_hex mode i n (some [] ∷ files) =
    file_writes-stream md5_hex mode (suc i) n files
file_writes-stream md5_hex mode i n (some (c ∷ body) ∷ files) =
    ap (λ rest. send_data (md5_hex (c ∷ body)) (c ∷ body) ++ rest)
      (file_writes-stream md5_hex mode (suc i) (suc n) files)
