-- ===== src/Master/Rewritten.antt =====
-- The rewriting of a reply's empty arrays ends.
use redis_rest.Base.{[], ◌∷◌, some, ◌≡◌, ◌≢◌, refl, Text, All, arith}
use redis_rest.Replace.Scan.{scan, replace_all_distinct-scan}
use redis_rest.Master.Fetch.{Rewrites, rewrite, short_rewrites, long_rewrites}

-- One scan for each pair.
abbrev pub scans : Rewrites → Text → Text
scans [] text = text
scans ((from, to) ∷ rest) text = scans rest (scan 0 from to text)

abbrev pub NotEmpty : Text × Text → Type 0
NotEmpty r = r.0 ≢ []

-- The calls of replace_all_distinct on a reply all end, and each is one scan from left to right, if no
-- text to replace is empty.
pub rewrite-scans :
    (rewrites : Rewrites) (text : Text)
    → All NotEmpty rewrites
    → rewrite rewrites text ≡ some (scans rewrites text)
unfolding rewrite
rewrite-scans [] text h = refl
rewrite-scans ((from, to) ∷ rest) text (full, h) =
    rw (rewrite, replace_all_distinct-scan text from to full, rewrite)
      (rewrite-scans rest (scan 0 from to text) h)

pub short-NotEmpty : All NotEmpty short_rewrites
short-NotEmpty = ground arith

pub long-NotEmpty : All NotEmpty long_rewrites
long-NotEmpty = ground arith
