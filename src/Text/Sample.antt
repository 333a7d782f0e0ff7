-- ===== src/Text/Sample.antt =====
-- Letter case on ASCII letters only: an instance of the interface, for the witnesses and tests.
use cachestack.Base.{ℕ, ◌-◌, ◌&&◌, map, refl, leb, if◌then◌else◌}
use cachestack.Text.{Unicode, ascii_lower}

abbrev ascii_upper : ℕ → ℕ
ascii_upper c = if leb b'a' c && leb c b'z' then c - 32 else c

abbrev pub ascii : Unicode
ascii = record {
  to_lower = map ascii_lower;
  to_upper = map ascii_upper;
  to_lower_ascii = λ s h. refl;
}
