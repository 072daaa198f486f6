-- ===== src/DataCarrier.antt =====
-- src/attributes/SMARTuniqueID.hpp and .cpp: the identity of a data carrier and its order in the
-- `std::set` and `std::map` containers. A `char` array is the list of its bytes, 0 ends its text.
pub mod Order
pub mod Names
use Prim.Native.Nat.{compare, Ordering}
use smartmonitor.Common.{
  ℕ, zero, suc, ◌+◌, Bool, true, false, List, [], ◌∷◌, ◌==◌, if◌then◌else◌, Bytes, replicate,
}

-- The capacities without the terminating 0: the constants of the header for ATA-3.
pub record Capacity : Type 0 where
  pub serial : ℕ  -- TU_Bln361095hardwareSMARTnumSNbytes
  pub firmware : ℕ  -- TU_Bln361095hardwareSMARTnumFWbytes
  pub model : ℕ  -- TU_Bln361095hardwareSMARTnumModelBytes

-- The members that identify a carrier.
pub record UniqueId : Type 0 where
  pub serial_number : Bytes
  pub firmware_name : Bytes
  pub model_name : Bytes

-- `strncmp`; what lies behind a list counts as the terminating 0.
unfoldable pub strncmp : ℕ → Bytes → Bytes → Ordering
strncmp zero a b = Ordering.eq
strncmp (suc n) [] [] = Ordering.eq
strncmp (suc n) [] (y ∷ b) = if y == 0 then Ordering.eq else Ordering.lt
strncmp (suc n) (x ∷ a) [] = if x == 0 then Ordering.eq else Ordering.gt
strncmp (suc n) (x ∷ a) (y ∷ b) =
    let rest = strncmp n a b in
    elim (compare x y) [
      | Ordering.lt ↦ Ordering.lt
      | Ordering.eq ↦ if x == 0 then Ordering.eq else rest
      | Ordering.gt ↦ Ordering.gt
    ]

-- `strncpy(dst, src, n)`: pads with 0 up to `n` bytes, and keeps what lies behind them.
unfoldable pub strncpy : ℕ → Bytes → Bytes → Bytes
strncpy zero src dst = dst
strncpy (suc n) src [] = []
strncpy (suc n) [] (_ ∷ dst) = 0 ∷ strncpy n [] dst
strncpy (suc n) (ch ∷ src) (_ ∷ dst) =
    if ch == 0 then 0 ∷ strncpy n [] dst else ch ∷ strncpy n src dst

-- `operator <` on two carriers: model, then firmware, then serial number
unfoldable pub less : Capacity → UniqueId → UniqueId → Bool
less cap l r = elim (strncmp cap.model l.model_name r.model_name) [
  | Ordering.lt ↦ true
  | Ordering.gt ↦ false
  | Ordering.eq ↦ elim (strncmp cap.firmware l.firmware_name r.firmware_name) [
    | Ordering.lt ↦ true
    | Ordering.gt ↦ false
    | Ordering.eq ↦ elim (strncmp cap.serial l.serial_number r.serial_number) [
      | Ordering.lt ↦ true
      | Ordering.gt ↦ false
      | Ordering.eq ↦ false
    ]
  ]
]

-- `SetModelName`, `SetFirmwareName`, `SetSerialNumber`
unfoldable pub set_model_name : Capacity → Bytes → UniqueId → UniqueId
set_model_name cap name d = record d { model_name = strncpy (cap.model + 1) name d.model_name }

unfoldable pub set_firmware_name : Capacity → Bytes → UniqueId → UniqueId
set_firmware_name cap name d = record d {
  firmware_name = strncpy (cap.firmware + 1) name d.firmware_name;
}

unfoldable pub set_serial_number : Capacity → Bytes → UniqueId → UniqueId
set_serial_number cap name d = record d { serial_number = strncpy cap.serial name d.serial_number }
