-- ===== src/Tests/Strings.antt =====
-- Texts that are split, read by lines and cut.
use nanonet.Common.{◌≡◌, ◌↔◌, some, List, [], ◌∷◌, Bytes, codes, refl}
use nanonet.Text.{split, canonical}
use nanonet.Text.Split.{IsSplit, split_iff}
use nanonet.Text.{canonical}

abbrev three_parts : List Bytes
three_parts = codes "a" ∷ [] ∷ codes "b" ∷ []

split_iff_example :
    (split (codes "a,,b") b',' ≡ some three_parts) ↔ IsSplit b',' (codes "a,,b") three_parts
split_iff_example = split_iff (codes "a,,b") b',' three_parts

canonical_run : canonical (codes "n-123 xy") (codes "-") ≡ codes "N-123XY"
unfolding canonical
canonical_run = refl
