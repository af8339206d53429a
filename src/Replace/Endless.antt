-- ===== src/Replace/Endless.antt =====
-- `replace_all` where the new text holds the old one.
use redis_rest.Base.{
  ℕ, zero, suc, ◌≡◌, refl, true, none, Text, length, arith, take, drop, ◌+◌, Option-cases, inl, inr,
}
use redis_rest.Strings.{find, replace, occurs, occurs_in_rest, occurs_in_front}
use redis_rest.Replace.{replace_all}

found_again :
    (old_value new_value str : Text) (at : ℕ)
    → occurs old_value new_value ≡ true
    → occurs old_value (replace str at (length old_value) new_value) ≡ true
unfolding replace
found_again old_value new_value str at h =
    occurs_in_front old_value _ (drop (at + length old_value) str)
      (occurs_in_rest old_value (take at str) new_value h)

found_at_0 : (p t : Text) → occurs p t ≡ true → find t p 0 ≡ none → ⊥
unfolding occurs find
found_at_0 p t h e = ground arith

-- `replace_all` never ends on a text in which `old_value` stands, if it stands in `new_value` too:
-- no fuel is enough.
pub replace_all_endless :
    (fuel : ℕ) (str old_value new_value : Text)
    → occurs old_value new_value ≡ true
    → occurs old_value str ≡ true
    → replace_all fuel str old_value new_value ≡ none
unfolding replace_all
replace_all_endless zero str old_value new_value h there = refl
replace_all_endless (suc fuel) str old_value new_value h there =
    elim (Option-cases (find str old_value 0)) [
      | inl e ↦ absurd (found_at_0 old_value str there e)
      | inr (at, e) ↦
          rw (e, replace_all)
            (replace_all_endless fuel (replace str at (length old_value) new_value) old_value
              new_value h (found_again old_value new_value str at h))
    ]
