-- ===== src/Downloads.antt =====
-- The download of tax rates: `taxfile`, `create_dir`, `download_tax_from_taxrate` and
-- `uploads_init_dir` of src/paypal.hpp. libcurl is the parameter `perform`, the buffers of a transfer
-- by its URL. Files are a map from the file that a path names, which the parameter `resolve` tells, to what
-- it holds. Whether std::ofstream opens, directories and config.ini are parameters.
pub mod Saved
use redis_rest.Base.{
  Bool, true, false, List, [], ◌∷◌, ◌++◌, Option, none, some, Text, codes, c_str, text_eq,
  if◌then◌else◌,
}

abbrev pub Files : Type 0
Files = List (Text × Text)

unfoldable pub file_at : Text → Files → Option Text
file_at name [] = none
file_at name ((n, content) ∷ rest) =
    let later = file_at name rest in if text_eq name n then some content else later

-- std::ofstream(filename): the file is there, and empty.
unfoldable pub open_file : Text → Files → Files
open_file name [] = (name, []) ∷ []
open_file name ((n, content) ∷ rest) =
    let later = open_file name rest in
    if text_eq name n then (n, []) ∷ rest else (n, content) ∷ later

-- addData: fp.write at the end of what was written.
unfoldable pub add_data : Text → Text → Files → Files
add_data name bytes [] = []
add_data name bytes ((n, content) ∷ rest) =
    let later = add_data name bytes rest in
    if text_eq name n then (n, content ++ bytes) ∷ rest else (n, content) ∷ later

-- m_data, whether fp is open, and the files.
pub record Download : Type 0 where
  pub is_open : Bool
  pub body : Text
  pub files : Files

-- download_write_data, for a buffer that is not null. A stream that is not open writes nothing.
unfoldable pub download_write_data : Text → Text → Download → Download
download_write_data name buffer d = record d {
  body = buffer;
  files = if d.is_open then add_data name buffer d.files else d.files;
}

unfoldable pub write_all : Text → List Text → Download → Download
unfolding download_write_data
write_all name [] d = d
write_all name (buffer ∷ rest) d = write_all name rest (download_write_data name buffer d)

abbrev pub download_url : Text
download_url = codes "http://taxrates.csv.s3.amazonaws.com/"

-- The constructor, which opens the file and runs the transfer: curl and on_request. Where the file does
-- not open, because of its directory or its permissions, the transfer runs all the same.
unfoldable pub download_tax_from_taxrate :
    (perform : Text → List Text) (resolve : Text → Text) (opens : Bool)
    → Text
    → Text
    → Files
    → Download
download_tax_from_taxrate perform resolve opens filename save_path files =
    let name = resolve (c_str (save_path ++ codes "/" ++ filename)) in
    write_all name (perform (c_str (download_url ++ filename)))
      record { is_open = opens; body = []; files = if opens then open_file name files else files }

-- The calls of boost::filesystem that raise are `none`.
abbrev pub create_dir : Option Bool → Bool
create_dir none = false
create_dir (some created) = created

-- uploads_init_dir: the path that it returns, and whether it emptied that directory. `path` is what
-- config.ini has for nfs.path, `exists` and `created` tell of that directory.
unfoldable pub uploads_init_dir :
    (path : Option Text) (exists : Option Bool) (created removed : Option Bool) → Text × Bool
uploads_init_dir none exists created removed = (codes "/", false)
uploads_init_dir (some path) none created removed = (codes "/", false)
uploads_init_dir (some path) (some true) created none = (codes "/", false)
uploads_init_dir (some path) (some true) created (some done) = (path, true)
uploads_init_dir (some path) (some false) none removed = (codes "/", false)
uploads_init_dir (some path) (some false) (some false) removed = (codes "/", false)
uploads_init_dir (some path) (some false) (some true) removed = (path, false)
