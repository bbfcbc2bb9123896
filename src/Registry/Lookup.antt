-- ===== src/Registry/Lookup.antt =====
-- The map of the registry: what `find` gives after `put`.
use nanonet.Common.{◌≡◌, refl, [], ◌∷◌, List, Bytes, some, arith, equal, equal_iff, if◌then◌else◌}
use nanonet.Double.{Floats}
use nanonet.Registry.{Mapped, find, put}

module _ {fl : Floats} where
  pub find-put :
      (key other : Bytes) (m : Mapped fl) (l : List (Bytes × Mapped fl))
      → find other (put key m l) ≡ (if equal key other then some m else find other l)
  unfolding find put
  find-put key other m [] = refl
  find-put key other m ((k, n) ∷ rest) =
      ground
        (arith, equal_iff k key, equal_iff k other, equal_iff key other, find-put key other m rest)
