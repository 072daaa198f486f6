-- ===== src/Examples/IdArray.antt =====
-- The arrays of IDs at concrete lists.
use smartmonitor.Common.{ℕ, ◌≡◌, refl, List, [], ◌∷◌, some, arith, length}
use smartmonitor.IdArray.{set_smart_ids_to_read}
use smartmonitor.IdArray.Spec.{Ascends, ids, keep}
use smartmonitor.IdArray.Intersect.{set_smart_ids_to_read_intersects}

abbrev empty : List ℕ
empty = 0 ∷ 0 ∷ 0 ∷ 0 ∷ 0 ∷ 0 ∷ []

set_smart_ids_to_read_intersects_example :
    (b : List ℕ) × (set_smart_ids_to_read
        (1 ∷ 5 ∷ 9 ∷ 194 ∷ [])
        (5 ∷ 194 ∷ 197 ∷ 0 ∷ 7 ∷ 7 ∷ [])
        empty
      ≡ some b)
    × (ids b ≡ keep (5 ∷ 194 ∷ 197 ∷ []) (1 ∷ 5 ∷ 9 ∷ 194 ∷ []))
    × Ascends 0 (ids b)
    × (length b ≡ 6)
set_smart_ids_to_read_intersects_example =
    set_smart_ids_to_read_intersects (1 ∷ 5 ∷ 9 ∷ 194 ∷ []) 5 (194 ∷ 197 ∷ []) (7 ∷ 7 ∷ []) empty
      (ground arith) (ground arith) refl
