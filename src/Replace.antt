-- ===== src/Replace.antt =====
-- `replace_all` and `replace_all_distinct` of src/redis/redis_source.hpp and src/shared.hpp.
pub mod Scan
pub mod Endless
use redis_rest.Base.{ℕ, zero, suc, ◌+◌, Option, none, some, Text, length}
use redis_rest.Strings.{find, replace}

-- for (pos = 0; pos != npos; pos += new_value.length()) { … } with fuel; `none` means that it ran out.
pub replace_from : ℕ → Text → Text → Text → ℕ → Option Text
replace_from zero old_value new_value str pos = none
replace_from (suc fuel) old_value new_value str pos = elim (find str old_value pos) [
  | none ↦ some str
  | some at ↦
      replace_from fuel old_value new_value (replace str at (length old_value) new_value)
        (at + length new_value)
]

-- Each round but the last puts the position behind another piece of the text.
unfoldable pub replace_all_distinct : Text → Text → Text → Option Text
unfolding replace_from
replace_all_distinct str old_value new_value =
    replace_from (suc (length str)) old_value new_value str 0

-- while (true) { … } on fuel: each search starts at the front again.
pub replace_all : ℕ → Text → Text → Text → Option Text
replace_all zero str old_value new_value = none
replace_all (suc fuel) str old_value new_value = elim (find str old_value 0) [
  | none ↦ some str
  | some at ↦ replace_all fuel (replace str at (length old_value) new_value) old_value new_value
]
