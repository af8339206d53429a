-- ===== src/Downloads/Saved.antt =====
-- A downloaded file is the transfer, whole.
use redis_rest.Base.{
  Bool, true, if◌then◌else◌, false, List, [], ◌∷◌, ◌++◌, append-nil, append_assoc, some, ◌≡◌, refl,
  sym, ap, ◌∙◌, Text, codes, c_str, text_eq, text_eq_refl, text_eq_iff, Bool-cases, inl, inr, arith,
}
use redis_rest.Static.Chunks.{joined}
use redis_rest.Downloads.{
  Files, file_at, open_file, add_data, Download, download_write_data, write_all, download_url,
  download_tax_from_taxrate,
}

file_at-open : (name : Text) (files : Files) → file_at name (open_file name files) ≡ some []
unfolding file_at open_file
file_at-open name [] = rw (text_eq_refl name) refl
file_at-open name ((n, content) ∷ rest) = elim (Bool-cases (text_eq name n)) [
  | inl same ↦ rw (same, same) refl
  | inr other ↦ rw (other, other) (file_at-open name rest)
]

file_at-open_other :
    (name other : Text) (files : Files)
    → text_eq other name ≡ false
    → file_at other (open_file name files) ≡ file_at other files
unfolding file_at open_file
file_at-open_other name other [] apart = rw apart refl
file_at-open_other name other ((n, content) ∷ rest) apart =
    ground (arith, file_at-open_other name other rest apart, text_eq_iff name n)

same_content : (t u : Text) → some t ≡ some u → t ≡ u
same_content t u e = cc

file_at-add :
    (name bytes : Text) (files : Files) (held : Text)
    → file_at name files ≡ some held
    → file_at name (add_data name bytes files) ≡ some (held ++ bytes)
unfolding file_at add_data
file_at-add name bytes [] held there = cc
file_at-add name bytes ((n, content) ∷ rest) held there = elim (Bool-cases (text_eq name n)) [
  | inl same ↦
      rw (same, same) (ap (λ t. some (t ++ bytes)) (same_content content held (rw same at there)))
  | inr other ↦ rw (other, other) (file_at-add name bytes rest held (rw other at there))
]

file_at-add_other :
    (name other bytes : Text) (files : Files)
    → text_eq other name ≡ false
    → file_at other (add_data name bytes files) ≡ file_at other files
unfolding file_at add_data
file_at-add_other name other bytes [] apart = refl
file_at-add_other name other bytes ((n, content) ∷ rest) apart =
    ground (arith, file_at-add_other name other bytes rest apart, text_eq_iff name n)

file_at-write :
    (name : Text) (buffers : List Text) (d : Download) (held : Text)
    → d.is_open ≡ true
    → file_at name d.files ≡ some held
    → file_at name (write_all name buffers d).files ≡ some (held ++ joined buffers)
unfolding write_all download_write_data
file_at-write name [] d held up there = there ∙ ap some (sym (append-nil held))
file_at-write name (buffer ∷ rest) d held up there =
    file_at-write name rest (download_write_data name buffer d) (held ++ buffer) up
      (rw up (file_at-add name buffer d.files held there))
    ∙ ap some (append_assoc held buffer (joined rest))

file_at-write_other :
    (name other : Text) (buffers : List Text) (d : Download)
    → text_eq other name ≡ false
    → d.is_open ≡ true
    → file_at other (write_all name buffers d).files ≡ file_at other d.files
unfolding write_all download_write_data
file_at-write_other name other [] d apart up = refl
file_at-write_other name other (buffer ∷ rest) d apart up =
    file_at-write_other name other rest (download_write_data name buffer d) apart up
    ∙ rw up (file_at-add_other name other buffer d.files apart)

closed-write :
    (name : Text) (buffers : List Text) (d : Download)
    → d.is_open ≡ false
    → (write_all name buffers d).files ≡ d.files
unfolding write_all download_write_data
closed-write name [] d shut = refl
closed-write name (buffer ∷ rest) d shut =
    closed-write name rest (download_write_data name buffer d) shut ∙ rw shut refl

-- Whatever the transfer gives and whatever the file held. If the file opens, then after a download the
-- file that its name below the directory resolves to holds the buffers of the transfer for that name,
-- in order and nothing else, and every other file is as it was; if it does not open, every file is as
-- it was.
pub download-joined :
    (perform : Text → List Text) (resolve : Text → Text) (opens : Bool)
    (filename save_path other : Text) (files : Files)
    → text_eq other (resolve (c_str (save_path ++ codes "/" ++ filename))) ≡ false
    → let name = resolve (c_str (save_path ++ codes "/" ++ filename)) in
      let after = download_tax_from_taxrate perform resolve opens filename save_path files in
      (file_at name after.files ≡ (
        if opens
        then some (joined (perform (c_str (download_url ++ filename))))
        else file_at name files))
      × (file_at other after.files ≡ file_at other files)
unfolding download_tax_from_taxrate
download-joined perform resolve true filename save_path other files apart =
    let name = resolve (c_str (save_path ++ codes "/" ++ filename)) in
    let opened : Download = record { is_open = true; body = []; files = open_file name files } in
    let buffers = perform (c_str (download_url ++ filename)) in
    (
      file_at-write name buffers opened [] refl (file_at-open name files),
      file_at-write_other name other buffers opened apart refl
          ∙ file_at-open_other name other files apart,
    )
download-joined perform resolve false filename save_path other files apart =
    let name = resolve (c_str (save_path ++ codes "/" ++ filename)) in
    let buffers = perform (c_str (download_url ++ filename)) in
    let shut : Download = record { is_open = false; body = []; files = files } in
    (
      ap (file_at name) (closed-write name buffers shut refl),
      ap (file_at other) (closed-write name buffers shut refl),
    )
