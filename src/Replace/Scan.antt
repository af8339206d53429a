-- ===== src/Replace/Scan.antt =====
-- `replace_all_distinct` against one scan of the text from left to right.
use native.Mathlib.Nat.{add_assoc}
use redis_rest.Base.{
  ℕ, zero, suc, ◌+◌, ◌-◌, ◌≤◌, ◌<◌, [], ◌∷◌, ◌++◌, append_assoc, none, some, ◌≡◌, ◌≢◌, refl, ◌∙◌,
  Text, length, take, drop, starts_with, if◌then◌else◌, arith, inl, inr, length-append, length-drop,
  Option-cases,
}
use redis_rest.Strings.{
  find_in, find, replace, find_in-le, find_in_sound, find-append, take_past, drop_past, drop-add,
  length-take, starts_with-length,
}
use redis_rest.Replace.{replace_from, replace_all_distinct}

-- Reading left to right: wherever `old_value` stands, `new_value` takes its place, and the reading
-- goes on behind it. The first argument counts the bytes still to skip.
pub scan : ℕ → Text → Text → Text → Text
scan skip old_value new_value [] = []
scan (suc skip) old_value new_value (x ∷ t) = scan skip old_value new_value t
scan zero old_value new_value (x ∷ t) =
    let found = new_value ++ scan (length old_value - 1) old_value new_value t in
    let passed = x ∷ scan zero old_value new_value t in
    if starts_with old_value (x ∷ t) then found else passed

-- The two ways in which a round of the loop goes.
module _ (fuel : ℕ) (old_value new_value str : Text) (pos : ℕ) where
  pub replace_from-none :
      find str old_value pos ≡ none → replace_from (suc fuel) old_value new_value str pos ≡ some str
  unfolding replace_from
  replace_from-none e = rw (e, replace_from)

  pub replace_from-some :
      {at : ℕ}
      → find str old_value pos ≡ some at
      → replace_from (suc fuel) old_value new_value str pos
        ≡ replace_from fuel old_value new_value
            (replace str at (length old_value) new_value)
            (at + length new_value)
  unfolding replace_from
  replace_from-some e = rw (e, replace_from)

module _ (o : ℕ) (ld new_value : Text) where
  abbrev old_value : Text
  old_value = o ∷ ld

  scan-none : (t : Text) → find_in old_value t ≡ none → scan 0 old_value new_value t ≡ t
  unfolding scan find_in
  scan-none [] h = refl
  scan-none (x ∷ t) h = ground (arith, scan-none t)

  scan_skip :
      (k : ℕ) (t : Text) → scan k old_value new_value t ≡ scan 0 old_value new_value (drop k t)
  unfolding scan
  scan_skip zero t = refl
  scan_skip (suc k) [] = refl
  scan_skip (suc k) (x ∷ t) = scan_skip k t

  scan-some :
      (t : Text) (i : ℕ)
      → find_in old_value t ≡ some i
      → scan 0 old_value new_value t
        ≡ take i t ++ new_value ++ scan 0 old_value new_value (drop (length old_value) (drop i t))
  unfolding scan find_in starts_with
  scan-some [] i h = cc
  scan-some (x ∷ t) zero h = ground (arith, scan_skip (length ld) t)
  scan-some (x ∷ t) (suc i) h = ground (arith, scan-some t i)

  -- One round of the loop, from a text whose first part is settled.
  round :
      (done rest : Text) (i : ℕ)
      → replace (done ++ rest) (length done + i) (length old_value) new_value
        ≡ (done ++ take i rest ++ new_value) ++ drop (length old_value) (drop i rest)
  unfolding replace
  round done rest i =
      rw (take_past done rest i, add_assoc, drop_past done rest, drop-add i (length old_value) rest)
        (simp append_assoc)

  -- What is left behind a place that was found is shorter.
  shorter :
      (fuel : ℕ) (rest : Text) (i : ℕ)
      → find_in old_value rest ≡ some i
      → length rest < suc fuel
      → length (drop (length old_value) (drop i rest)) < fuel
  shorter fuel rest i e h = omega (
    arith,
    length-drop (length old_value) (drop i rest),
    length-drop i rest,
    starts_with-length old_value (drop i rest) (find_in_sound old_value rest i e),
  )

  position :
      (done rest : Text) (i : ℕ)
      → i ≤ length rest
      → length done + i + length new_value ≡ length (done ++ take i rest ++ new_value)
  position done rest i h = omega (
    arith,
    length-append done (take i rest ++ new_value),
    length-append (take i rest) new_value,
    length-append (done ++ take i rest) new_value,
    length-append done (take i rest),
    length-take i rest h,
  )

  replace_from-scan :
      (fuel : ℕ) (done rest : Text)
      → length rest < fuel
      → replace_from fuel old_value new_value (done ++ rest) (length done)
        ≡ some (done ++ scan 0 old_value new_value rest)
  replace_from-scan zero done rest h = elim h [ ]
  replace_from-scan (suc fuel) done rest h = elim (Option-cases (find_in old_value rest)) [
    | inl e ↦
        replace_from-none fuel old_value new_value (done ++ rest) (length done)
          (rw (find-append old_value done rest, e))
        ∙ rw (scan-none rest e)
    | inr (i, e) ↦
        let done' : Text = done ++ take i rest ++ new_value in
        let rest' : Text = drop (length old_value) (drop i rest) in
        replace_from-some fuel old_value new_value (done ++ rest) (length done)
          {at = length done + i} (rw (find-append old_value done rest, e))
        ∙ rw (round done rest i, position done rest i (find_in-le old_value rest i e))
            (replace_from-scan fuel done' rest' (shorter fuel rest i e h)
              ∙ rw (scan-some rest i e) (simp append_assoc))
  ]

-- `replace_all_distinct` ends within its fuel and replaces every occurrence that one scan from left to
-- right meets, for every text and every replacement, if the text to replace is not empty.
pub replace_all_distinct-scan :
    (str old_value new_value : Text)
    → old_value ≢ []
    → replace_all_distinct str old_value new_value ≡ some (scan 0 old_value new_value str)
unfolding replace_all_distinct
replace_all_distinct-scan str [] new_value h = absurd (h refl)
replace_all_distinct-scan str (o ∷ ld) new_value h =
    replace_from-scan o ld new_value (suc (length str)) [] str (omega arith)
