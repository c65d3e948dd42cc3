-- ===== src/Archive.antt =====
-- internal/eewlog/store.go: where the raw telegrams are kept. The file system is a `Files`, which
-- the operations take with its state; an operation returns whether it succeeds.
pub mod Keeping
pub mod Memory
use irc_eew.Base.{
  ℕ, ◌≡◌, Bool, true, false, Option, none, some, List, [], ◌∷◌, ◌++◌, leb, if◌then◌else◌, length,
  take, drop,
}
use irc_eew.Base.Bytes.{Bytes, codes}
use irc_eew.Base.Decimal.{show}
use irc_eew.Base.Int.{ℤ}
use irc_eew.Base.Path.{join, dir}

-- The calls of `os`; `write_file` and `mkdir_temp` are given what the source fixes in them, the
-- modes. A call that fails may have changed the state.
pub record Files (S : Type 0) : Type 0 where
  pub read_file : S → Bytes → Option Bytes
  pub write_file : S → Bytes → Bytes → S × Bool
  pub mkdir_all : S → Bytes → S × Bool
  pub rename : S → Bytes → Bytes → S × Bool
  -- the path of the new directory
  pub mkdir_temp : S → Bytes → Bytes → S × Option Bytes
  pub remove_all : S → Bytes → S

-- What `os` says of a call that succeeds.
pub record Keeps {S : Type 0} (files : Files S) : Type 0 where
  pub read-write_file :
      (s : S) (path body : Bytes)
      → (files.write_file s path body).1 ≡ true
      → files.read_file (files.write_file s path body).0 path ≡ some body
  -- directories are no files
  pub read-mkdir_all :
      (s : S) (path made body : Bytes)
      → files.read_file s path ≡ some body
      → files.read_file (files.mkdir_all s made).0 path ≡ some body
  pub read-rename :
      (s : S) (old new body : Bytes)
      → files.read_file s old ≡ some body
      → (files.rename s old new).1 ≡ true
      → files.read_file (files.rename s old new).0 new ≡ some body

-- `s[from:to]`
abbrev pub cut : ℕ → ℕ → Bytes → Bytes
cut from to s = drop from (take to s)

-- The name of a telegram's file.
abbrev pub file_name : Bytes → ℤ → Bytes
file_name eq_id warn_num = eq_id ++ b'.' ∷ show warn_num

-- The year, the month and the day, of an id that has them.
abbrev pub date_of : Bytes → Bytes × Bytes × Bytes
date_of eq_id =
    if leb 8 (length eq_id) then (cut 0 4 eq_id, cut 4 6 eq_id, cut 6 8 eq_id) else ([], [], [])

-- `FinalPath`
unfoldable pub final_path : Bytes → Bytes → ℤ → Bytes
final_path base eq_id warn_num =
    let date = date_of eq_id in
    join (base ∷ date.0 ∷ date.1 ∷ date.2 ∷ file_name eq_id warn_num ∷ [])

-- The path of `WriteTemp`, at the Unix time `now`.
abbrev pub temp_path : Bytes → ℤ → Bytes → Bytes
temp_path base now md5 = join (base ∷ (show now ++ b'.' ∷ md5) ∷ [])

module _ {S : Type 0} (files : Files S) where
  -- The directory for the test file, if there is one; it is removed in both cases.
  abbrev opened : S → Bytes → Option Bytes → S × Option Bytes
  opened s base none = (s, none)
  opened s base (some made) =
      let written = files.write_file s (join (made ∷ codes "tmf" ∷ [])) (codes "TEST\n") in
      (files.remove_all written.0 made, if written.1 then some base else none)

  -- `Open`; `none` is its error.
  pub open_store : S → Bytes → S × Option Bytes
  open_store s base = let made = files.mkdir_temp s base (codes "tmi-") in opened made.0 base made.1

  -- `WriteTemp`
  unfoldable pub write_temp : S → Bytes → ℤ → Bytes → Bytes → S × Option Bytes
  write_temp s base now md5 body =
      let path = temp_path base now md5 in
      let written = files.write_file s path body in
      (written.0, if written.1 then some path else none)

  -- The move, when the directory was made or was there.
  pub move_to : Bytes → Bytes → S × Bool → S × Option Bytes
  move_to temp path (s, false) = (s, none)
  move_to temp path (s, true) =
      let renamed = files.rename s temp path in (renamed.0, if renamed.1 then some path else none)

  -- `Finalize`
  unfoldable pub finalize : S → Bytes → Bytes → Bytes → ℤ → S × Option Bytes
  unfolding move_to
  finalize s base temp eq_id warn_num =
      let path = final_path base eq_id warn_num in move_to temp path (files.mkdir_all s (dir path))
