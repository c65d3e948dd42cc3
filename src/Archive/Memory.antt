-- ===== src/Archive/Memory.antt =====
-- A file system that is a map from paths to bytes: directories are always there.
use irc_eew.Archive.{Files, Keeps}
use irc_eew.Base.Bytes.{Bytes, equal_refl}
use irc_eew.Base.Dict.{get, put, delete, get-put}
use irc_eew.Base.{◌≡◌, refl, sym, ◌∙◌, subst, Bool, true, false, Option, none, some, List, ◌++◌}

abbrev pub Disk : Type 0
Disk = List (Bytes × Bytes)

abbrev moved : Disk → Bytes → Bytes → Option Bytes → Disk × Bool
moved s old new none = (s, false)
moved s old new (some body) = (put new body (delete old s), true)

abbrev pub memory : Files Disk
memory = record {
  read_file = λ s path. get path s;
  write_file = λ s path body. (put path body s, true);
  mkdir_all = λ s path. (s, true);
  rename = λ s old new. moved s old new (get old s);
  mkdir_temp = λ s base prefix. (s, some (base ++ prefix));
  remove_all = λ s path. s;
}

get-put_same : (path body : Bytes) (s : Disk) → get path (put path body s) ≡ some body
get-put_same path body s = get-put path path body s ∙ rw (equal_refl path) refl

pub memory-Keeps : Keeps memory
memory-Keeps = record {
  read-write_file = λ s path body e. get-put_same path body s;
  read-mkdir_all = λ s path made body e. e;
  read-rename = λ s old new body e ok.
      subst (λ o. get new (moved s old new o).0 ≡ some body) (sym e)
        (get-put_same new body (delete old s));
}
