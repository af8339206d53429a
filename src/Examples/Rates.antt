-- ===== src/Examples/Rates.antt =====
-- The theorem on downloads, with two files.
use redis_rest.Base.{
  true, starts_with, drop, if◌then◌else◌, List, [], ◌∷◌, ◌++◌, some, ◌≡◌, refl, Text, codes, c_str,
  text_eq,
}
use redis_rest.Static.Chunks.{joined}
use redis_rest.Downloads.{Files, file_at, download_url, download_tax_from_taxrate}
use redis_rest.Downloads.Saved.{download-joined}

abbrev disk : Files
disk = (codes "/nfs/ca.csv", codes "old") ∷ (codes "/nfs/ny.csv", codes "kept") ∷ []

-- A transfer in two buffers.
abbrev transfer : Text → List Text
transfer url = codes "state," ∷ codes "rate" ∷ []

-- Names with "//" and with "/" are the same file.
abbrev resolved : Text → Text
resolved t = if starts_with (codes "//") t then drop 1 t else t

download-joined_example :
    let after =
      download_tax_from_taxrate transfer resolved true (codes "ca.csv") (codes "//nfs") disk in
    (file_at (resolved (c_str (codes "//nfs" ++ codes "/" ++ codes "ca.csv"))) after.files
      ≡ some (joined (transfer (c_str (download_url ++ codes "ca.csv")))))
    × (file_at (codes "/nfs/ny.csv") after.files ≡ file_at (codes "/nfs/ny.csv") disk)
unfolding text_eq c_str starts_with
download-joined_example =
    download-joined transfer resolved true (codes "ca.csv") (codes "//nfs") (codes "/nfs/ny.csv")
      disk refl
