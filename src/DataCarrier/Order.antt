-- ===== src/DataCarrier/Order.antt =====
-- The order of data carriers is fit for the containers: a strict weak order whose equivalence is
-- the equality of the three texts.
use Prim.Native.Nat.{Ordering}
use smartmonitor.Common.{
  ℕ, zero, suc, ◌≡◌, refl, sym, ◌↔◌, inl, inr, Bool-cases, true, false, [], ◌∷◌, arith, ◌==◌,
  if◌then◌else◌, Bytes,
}
use smartmonitor.DataCarrier.{Capacity, UniqueId, strncmp, less}

-- The text of an array, of `n` characters at most.
unfoldable pub text : ℕ → Bytes → Bytes
text zero a = []
text (suc n) [] = []
text (suc n) (x ∷ a) = if x == 0 then [] else x ∷ text n a

swap : Ordering → Ordering
swap Ordering.lt = Ordering.gt
swap Ordering.eq = Ordering.eq
swap Ordering.gt = Ordering.lt

strncmp-swap : (n : ℕ) (a b : Bytes) → strncmp n a b ≡ swap (strncmp n b a)
unfolding strncmp swap
strncmp-swap zero a b = refl
strncmp-swap (suc n) [] [] = refl
strncmp-swap (suc n) [] (y ∷ b) = ground arith
strncmp-swap (suc n) (x ∷ a) [] = ground arith
strncmp-swap (suc n) (x ∷ a) (y ∷ b) = ground (arith, strncmp-swap n a b)

-- Two arrays compare equal exactly when their texts are the same.
strncmp-eq_iff : (n : ℕ) (a b : Bytes) → (strncmp n a b ≡ Ordering.eq) ↔ (text n a ≡ text n b)
unfolding strncmp text
strncmp-eq_iff zero a b = (λ _. refl, λ _. refl)
strncmp-eq_iff (suc n) [] [] = (λ _. refl, λ _. refl)
strncmp-eq_iff (suc n) [] (y ∷ b) = ground arith
strncmp-eq_iff (suc n) (x ∷ a) [] = ground arith
strncmp-eq_iff (suc n) (x ∷ a) (y ∷ b) = ground (arith, strncmp-eq_iff n a b)

strncmp_trans :
    (n : ℕ) (a b c : Bytes)
    → strncmp n a b ≡ Ordering.lt
    → strncmp n b c ≡ Ordering.lt
    → strncmp n a c ≡ Ordering.lt
unfolding strncmp
strncmp_trans zero a b c h k = ground arith
strncmp_trans (suc n) [] [] c h k = ground arith
strncmp_trans (suc n) [] (y ∷ b) [] h k = ground arith
strncmp_trans (suc n) [] (y ∷ b) (z ∷ c) h k = ground arith
strncmp_trans (suc n) (x ∷ a) [] c h k = ground arith
strncmp_trans (suc n) (x ∷ a) (y ∷ b) [] h k = ground arith
strncmp_trans (suc n) (x ∷ a) (y ∷ b) (z ∷ c) h k = ground (arith, strncmp_trans n a b c)

-- Arrays that compare equal compare alike with any third.
strncmp_same : (n : ℕ) (a b c : Bytes) → strncmp n a b ≡ Ordering.eq → strncmp n a c ≡ strncmp n b c
unfolding strncmp
strncmp_same zero a b c h = refl
strncmp_same (suc n) [] [] c h = refl
strncmp_same (suc n) [] (y ∷ b) [] h = ground arith
strncmp_same (suc n) [] (y ∷ b) (z ∷ c) h = ground arith
strncmp_same (suc n) (x ∷ a) [] [] h = ground arith
strncmp_same (suc n) (x ∷ a) [] (z ∷ c) h = ground arith
strncmp_same (suc n) (x ∷ a) (y ∷ b) [] h = ground arith
strncmp_same (suc n) (x ∷ a) (y ∷ b) (z ∷ c) h = ground (arith, strncmp_same n a b c)

strncmp_same_right :
    (n : ℕ) (a b c : Bytes) → strncmp n b c ≡ Ordering.eq → strncmp n a b ≡ strncmp n a c
unfolding swap
strncmp_same_right n a b c h =
    ground (arith, strncmp-swap n a b, strncmp-swap n a c, strncmp_same n b c a h)

less_irrefl : (cap : Capacity) (a : UniqueId) → less cap a a ≡ false
unfolding less
less_irrefl cap a = ground (
  arith,
  strncmp-eq_iff cap.model a.model_name a.model_name,
  strncmp-eq_iff cap.firmware a.firmware_name a.firmware_name,
  strncmp-eq_iff cap.serial a.serial_number a.serial_number,
)

-- How three comparisons of one field fit together.
record Chain (x y z : Ordering) : Type 0 where
  pub lt_lt : x ≡ Ordering.lt → y ≡ Ordering.lt → z ≡ Ordering.lt
  pub eq_left : x ≡ Ordering.eq → z ≡ y
  pub eq_right : y ≡ Ordering.eq → z ≡ x

strncmp-Chain : (n : ℕ) (a b c : Bytes) → Chain (strncmp n a b) (strncmp n b c) (strncmp n a c)
strncmp-Chain n a b c = record {
  lt_lt = strncmp_trans n a b c;
  eq_left = strncmp_same n a b c;
  eq_right = λ h. sym (strncmp_same_right n a b c h);
}

less_trans :
    (cap : Capacity) (a b c : UniqueId)
    → less cap a b ≡ true
    → less cap b c ≡ true
    → less cap a c ≡ true
unfolding less
less_trans cap a b c h k = ground (
  arith,
  strncmp-Chain cap.model a.model_name b.model_name c.model_name,
  strncmp-Chain cap.firmware a.firmware_name b.firmware_name c.firmware_name,
  strncmp-Chain cap.serial a.serial_number b.serial_number c.serial_number,
)

-- The order of the carriers is transitive, and a carrier that is below another is not above it.
pub less_strict :
    (cap : Capacity) (a b c : UniqueId)
    → less cap a b ≡ true
    → less cap b c ≡ true
    → (less cap a c ≡ true) × (less cap b a ≡ false)
less_strict cap a b c h k = (
  less_trans cap a b c h k,
  elim (Bool-cases (less cap b a)) [
    | inl e ↦ cc (less_irrefl cap a, less_trans cap a b a h e)
    | inr e ↦ e
  ],
)

-- Two carriers are ordered neither way exactly when model, firmware and serial number have the
-- same texts up to their capacities: the containers then treat them as one data carrier.
pub less_incomparable_iff :
    (cap : Capacity) (a b : UniqueId)
    → ((less cap a b ≡ false) × (less cap b a ≡ false)) ↔ (
        (text cap.model a.model_name ≡ text cap.model b.model_name)
        × (text cap.firmware a.firmware_name ≡ text cap.firmware b.firmware_name)
        × (text cap.serial a.serial_number ≡ text cap.serial b.serial_number))
unfolding less swap
less_incomparable_iff cap a b = ground (
  arith,
  strncmp-swap cap.model b.model_name a.model_name,
  strncmp-swap cap.firmware b.firmware_name a.firmware_name,
  strncmp-swap cap.serial b.serial_number a.serial_number,
  strncmp-eq_iff cap.model a.model_name b.model_name,
  strncmp-eq_iff cap.firmware a.firmware_name b.firmware_name,
  strncmp-eq_iff cap.serial a.serial_number b.serial_number,
)
