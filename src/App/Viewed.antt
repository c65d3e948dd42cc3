-- ===== src/App/Viewed.antt =====
-- A telegram that the daemon has archived is what the log viewer shows.
use irc_eew.App.{Processor, process, save_temp, save_final}
use irc_eew.Archive.Keeping.{saved-reads}
use irc_eew.Archive.{Files, Keeps, file_name, final_path, write_temp, finalize}
use irc_eew.Base.Bytes.{Bytes}
use irc_eew.Base.Int.{ℤ, pos, negsuc}
use irc_eew.Base.{ℕ, ◌≡◌, ◌≢◌, ◌∙◌, ap, Option, some, [], ◌∷◌, arith, true, inl, inr}
use irc_eew.Decoder.Decode.WellFormed.{decode-WellFormed}
use irc_eew.Decoder.Decode.WellFormed.Fields.{Within, IsStamp}
use irc_eew.Decoder.Decode.{decode}
use irc_eew.Viewer.Detail.Lookup.{
  telegram_path-final_path, is_detail_name-file_name, detail_handler-found,
}
use irc_eew.Viewer.Detail.{page, page_for, detail_handler, is_detail_name, telegram_path}
use irc_eew.Viewer.{Config}

-- The path and the form of a name, by the shape of its id and its number.
found :
    (cwd : Bytes) (c : ℕ) (data_dir id : Bytes) (num : ℤ)
    → id ≢ []
    → IsStamp 14 id
    → Within 99 num
    → (is_detail_name (file_name id num) ≡ true)
      × (telegram_path (b'/' ∷ cwd) (c ∷ data_dir) (file_name id num)
          ≡ some (final_path (c ∷ data_dir) id num))
found cwd c data_dir id num ne (inl e) w = absurd (ne e)
found cwd c data_dir id (negsuc n) ne (inr s) w = elim w [ ]
found cwd c data_dir id (pos n) ne (inr s) w = (
  is_detail_name-file_name id s.0 s.1 n (omega arith),
  telegram_path-final_path id s.0 s.1 n cwd c data_dir,
)

module _ {S : Type 0} (files : Files S) (keeps : Keeps files) where
  -- The disk after `Process`, with a store whose files can be written.
  process-disk :
      (now : ℤ) (p : Processor) (s : S) (md5 body base temp : Bytes)
      → p.store ≡ some base
      → (write_temp files s base now md5 body).1 ≡ some temp
      → (process files now p s md5 body).2
        ≡ (finalize files
            (write_temp files s base now md5 body).0
            base
            temp
            (decode body).eq_id
            (decode body).warn_num).0
  unfolding process save_temp save_final
  process-disk now p s md5 body base temp store wrote =
      ap
        (λ o.
          save_final files (save_temp files s o now md5 body).0 o
            (save_temp files s o now md5 body).1 (decode body))
        store
      ∙ ap
          (λ o.
            save_final files (write_temp files s base now md5 body).0 (some base) o (decode body))
          wrote

  -- When the daemon has processed a telegram with an event id, its store is the viewer's data
  -- directory, and both the write of the temporary file and the move succeeded, then the detail
  -- view, asked for the id and the report number, shows the page of exactly these bytes; the
  -- data directory may be relative, the viewer's working directory is absolute.
  pub process-viewed :
      (now : ℤ) (p : Processor) (s : S) (md5 body temp path cwd : Bytes) (c : ℕ) (base : Bytes)
      (decoder : Bytes → Option Bytes) (cfg : Config)
      → p.store ≡ some (c ∷ base)
      → cfg.data_dir ≡ c ∷ base
      → (write_temp files s (c ∷ base) now md5 body).1 ≡ some temp
      → (finalize files
          (write_temp files s (c ∷ base) now md5 body).0
          (c ∷ base)
          temp
          (decode body).eq_id
          (decode body).warn_num).1
        ≡ some path
      → (decode body).eq_id ≢ []
      → detail_handler files
          (b'/' ∷ cwd)
          decoder
          cfg
          (process files now p s md5 body).2
          (file_name (decode body).eq_id (decode body).warn_num)
        ≡ page (page_for decoder cfg (file_name (decode body).eq_id (decode body).warn_num) body)
  process-viewed now p s md5 body temp path cwd c base decoder cfg store same wrote moved ne =
      let t = decode body in
      let w = decode-WellFormed body in
      let at = found cwd c base t.eq_id t.warn_num ne w.eq_id w.warn_num in
      detail_handler-found files (b'/' ∷ cwd) decoder cfg _ (file_name t.eq_id t.warn_num)
        (final_path (c ∷ base) t.eq_id t.warn_num) body at.0
        (ap (λ d. telegram_path (b'/' ∷ cwd) d (file_name t.eq_id t.warn_num)) same ∙ at.1)
        (ap (λ disk. files.read_file disk (final_path (c ∷ base) t.eq_id t.warn_num))
            (process-disk now p s md5 body (c ∷ base) temp store wrote)
          ∙ saved-reads files keeps s (c ∷ base) now md5 body temp t.eq_id t.warn_num path wrote
              moved)
