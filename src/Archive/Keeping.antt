-- ===== src/Archive/Keeping.antt =====
-- A telegram that is written and moved is kept.
use irc_eew.Archive.{Files, Keeps, temp_path, final_path, write_temp, move_to, finalize}
use irc_eew.Base.Bytes.{Bytes}
use irc_eew.Base.Int.{ℤ}
use irc_eew.Base.Path.{dir}
use irc_eew.Base.{◌≡◌, refl, subst, Bool, true, false, none, some, if◌then◌else◌}

-- When a step that may fail has a result.
succeeded {ℓ} :
    {A : Type ℓ} (b : Bool) (x y : A) → (if b then some x else none) ≡ some y → (b ≡ true) × (x ≡ y)
succeeded true x y e = (refl, cc)
succeeded false x y e = absurd (cc)

module _ {S : Type 0} (files : Files S) (keeps : Keeps files) where
  write_temp-reads :
      (s : S) (base : Bytes) (now : ℤ) (md5 body temp : Bytes)
      → (write_temp files s base now md5 body).1 ≡ some temp
      → files.read_file (write_temp files s base now md5 body).0 temp ≡ some body
  unfolding write_temp
  write_temp-reads s base now md5 body temp e =
      let written = files.write_file s (temp_path base now md5) body in
      let ok = succeeded written.1 (temp_path base now md5) temp e in
      subst (λ path. files.read_file written.0 path ≡ some body) ok.1
        (keeps.read-write_file s (temp_path base now md5) body ok.0)

  move_to-reads :
      (temp to path body : Bytes) (made : S × Bool)
      → files.read_file made.0 temp ≡ some body
      → (move_to files temp to made).1 ≡ some path
      → files.read_file (move_to files temp to made).0 to ≡ some body
  unfolding move_to
  move_to-reads temp to path body (s, false) r e = absurd (cc)
  move_to-reads temp to path body (s, true) r e =
      keeps.read-rename s temp to body r (succeeded (files.rename s temp to).1 to path e).0

  finalize-reads :
      (s : S) (base temp eq_id : Bytes) (num : ℤ) (path body : Bytes)
      → files.read_file s temp ≡ some body
      → (finalize files s base temp eq_id num).1 ≡ some path
      → files.read_file (finalize files s base temp eq_id num).0 (final_path base eq_id num)
        ≡ some body
  unfolding finalize
  finalize-reads s base temp eq_id num path body r e =
      let to = final_path base eq_id num in
      move_to-reads temp to path body (files.mkdir_all s (dir to))
        (keeps.read-mkdir_all s temp (dir to) body r) e

  -- What `WriteTemp` and `Finalize` leave under the final name, when both succeed.
  pub saved-reads :
      (s : S) (base : Bytes) (now : ℤ) (md5 body temp eq_id : Bytes) (num : ℤ) (path : Bytes)
      → (write_temp files s base now md5 body).1 ≡ some temp
      → (finalize files (write_temp files s base now md5 body).0 base temp eq_id num).1 ≡ some path
      → files.read_file
          (finalize files (write_temp files s base now md5 body).0 base temp eq_id num).0
          (final_path base eq_id num)
        ≡ some body
  saved-reads s base now md5 body temp eq_id num path wrote moved =
      finalize-reads _ base temp eq_id num path body
        (write_temp-reads s base now md5 body temp wrote) moved
