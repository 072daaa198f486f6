-- ===== src/Access/Each.antt =====
-- The description of the reading without a cursor.
use smartmonitor.Common.{ℕ, ◌<◌, List, [], ◌∷◌, Option, none, some, ◌>>=◌}
use smartmonitor.IdArray.Spec.{contains}
use smartmonitor.UnitGuess.{UnitSlot}
use smartmonitor.Access.{ParsedAttr, AttrVal, AttrIds, Metrics, Helper, take_value}

-- ascending attribute IDs above `lo`
abbrev pub AscendingAttrs : ℕ → List (ParsedAttr × Metrics) → Type 0
AscendingAttrs lo [] = Unit
AscendingAttrs lo ((a, m) ∷ attrs) = (lo < a.id) × AscendingAttrs a.id attrs

-- Each attribute on its own: stored if its ID is to be read, else marked as not read.
unfoldable pub read_each :
    List ℕ
    → AttrIds
    → List (ParsedAttr × Metrics)
    → List AttrVal × List UnitSlot
    → Option (List AttrVal × List UnitSlot)
read_each wanted k [] r = some r
read_each wanted k ((a, m) ∷ attrs) (values, slots) =
    take_value k m a (contains wanted a.id) values slots >>= λ r. read_each wanted k attrs r

-- The values and the slots of a result.
unfoldable pub outcome : Option Helper → Option (List AttrVal × List UnitSlot)
outcome none = none
outcome (some h) = some (h.values, h.slots)
