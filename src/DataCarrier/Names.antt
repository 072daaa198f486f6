-- ===== src/DataCarrier/Names.antt =====
-- What the setters leave in the arrays.
use smartmonitor.Common.{
  ℕ, zero, suc, ◌+◌, ◌≤◌, ◌≡◌, ◌≢◌, ◌∙◌, refl, [], ◌∷◌, arith, Bytes, length, take, All, get_elem?,
}
use smartmonitor.DataCarrier.{
  Capacity, UniqueId, strncpy, set_model_name, set_firmware_name, set_serial_number,
}
use smartmonitor.DataCarrier.Order.{text}

-- Characters of a text are not 0.
abbrev pub IsText : Bytes → Type 0
IsText = All (λ c. c ≢ 0)

text-strncpy :
    (n m : ℕ) (src dst : Bytes)
    → n ≤ m
    → m ≤ length dst
    → IsText src
    → text n (strncpy m src dst) ≡ take n src
unfolding text strncpy
text-strncpy zero m src dst h k t = refl
text-strncpy (suc n) zero src dst h k t = absurd (omega arith)
text-strncpy (suc n) (suc m) src [] h k t = absurd (omega arith)
text-strncpy (suc n) (suc m) [] (d ∷ dst) h k t = ground arith
text-strncpy (suc n) (suc m) (c ∷ src) (d ∷ dst) h k (p, t) =
    ground (arith, text-strncpy n m src dst (omega arith) (omega arith) t)

length-strncpy : (n : ℕ) (src dst : Bytes) → length (strncpy n src dst) ≡ length dst
unfolding strncpy
length-strncpy zero src dst = refl
length-strncpy (suc n) src [] = refl
length-strncpy (suc n) [] (d ∷ dst) = ground (arith, length-strncpy n [] dst)
length-strncpy (suc n) (c ∷ src) (d ∷ dst) =
    ground (arith, length-strncpy n [] dst, length-strncpy n src dst)

strncpy_behind :
    (n k : ℕ) (src dst : Bytes) → n ≤ k → get_elem? (strncpy n src dst) k ≡ get_elem? dst k
unfolding strncpy
strncpy_behind zero k src dst h = refl
strncpy_behind (suc n) k src [] h = refl
strncpy_behind (suc n) zero src (d ∷ dst) h = absurd (omega arith)
strncpy_behind (suc n) (suc k) [] (d ∷ dst) h = ground (arith, strncpy_behind n k [] dst)
strncpy_behind (suc n) (suc k) (c ∷ src) (d ∷ dst) h =
    ground (arith, strncpy_behind n k [] dst, strncpy_behind n k src dst)

-- The arrays have their declared sizes.
pub record IsSized (cap : Capacity) (d : UniqueId) : Type 0 where
  pub serial : length d.serial_number ≡ cap.serial + 1
  pub firmware : length d.firmware_name ≡ cap.firmware + 1
  pub model : length d.model_name ≡ cap.model + 1

-- The three setters together keep the array sizes and make each text the given one, cut at its
-- capacity. The last byte of the serial number's array is none that they write.
pub setters_store :
    (cap : Capacity) (d : UniqueId) (model firmware serial : Bytes)
    → IsSized cap d
    → IsText model
    → IsText firmware
    → IsText serial
    → let e =
        set_serial_number cap serial
          (set_firmware_name cap firmware (set_model_name cap model d)) in
      IsSized cap e
      × (text cap.model e.model_name ≡ take cap.model model)
      × (text cap.firmware e.firmware_name ≡ take cap.firmware firmware)
      × (text cap.serial e.serial_number ≡ take cap.serial serial)
      × (get_elem? e.serial_number cap.serial ≡ get_elem? d.serial_number cap.serial)
unfolding set_model_name set_firmware_name set_serial_number
setters_store cap d model firmware serial sized tm tf ts = (
  record {
    serial = length-strncpy cap.serial serial d.serial_number ∙ sized.serial;
    firmware = length-strncpy (cap.firmware + 1) firmware d.firmware_name ∙ sized.firmware;
    model = length-strncpy (cap.model + 1) model d.model_name ∙ sized.model;
  },
  text-strncpy cap.model (cap.model + 1) model d.model_name (omega arith) (omega arith) tm,
  text-strncpy cap.firmware (cap.firmware + 1) firmware d.firmware_name (omega arith) (omega arith)
      tf,
  text-strncpy cap.serial cap.serial serial d.serial_number (omega arith) (omega arith) ts,
  strncpy_behind cap.serial cap.serial serial d.serial_number (omega arith),
)
