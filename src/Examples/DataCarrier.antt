-- ===== src/Examples/DataCarrier.antt =====
-- Data carriers with names of up to two and three characters.
use smartmonitor.Common.{ℕ, ◌≡◌, ◌↔◌, refl, true, false, [], ◌∷◌, codes}
use smartmonitor.DataCarrier.{Capacity, UniqueId, strncmp, less}
use smartmonitor.DataCarrier.Order.{text, less_strict, less_incomparable_iff}

abbrev small : Capacity
small = record { serial = 2; firmware = 2; model = 3 }

abbrev carrier : ℕ → UniqueId
carrier n = record {
  serial_number = (n ∷ 0 ∷ 0 ∷ []);
  firmware_name = (b'F' ∷ 0 ∷ 0 ∷ []);
  model_name = (b'M' ∷ b'1' ∷ 0 ∷ 0 ∷ []);
}

less_strict_example :
    (less small (carrier b'A') (carrier b'C') ≡ true)
    × (less small (carrier b'B') (carrier b'A') ≡ false)
unfolding less strncmp
less_strict_example = less_strict small (carrier b'A') (carrier b'B') (carrier b'C') refl refl

less_incomparable_iff_example :
    ((less small (carrier b'A') (carrier b'B') ≡ false)
      × (less small (carrier b'B') (carrier b'A') ≡ false))
    ↔ ((text 3 (codes "M1") ≡ text 3 (codes "M1"))
        × (text 2 (codes "F") ≡ text 2 (codes "F"))
        × (text 2 (codes "A") ≡ text 2 (codes "B")))
unfolding text
less_incomparable_iff_example = less_incomparable_iff small (carrier b'A') (carrier b'B')
