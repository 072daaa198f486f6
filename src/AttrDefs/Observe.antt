-- ===== src/AttrDefs/Observe.antt =====
-- Which attributes are observed.
use smartmonitor.Common.{
  ℕ, zero, suc, ◌+◌, ◌≤◌, ◌<◌, ◌≡◌, refl, Bool, true, false, not, ◌||◌, List, [], ◌∷◌, arith, ◌==◌,
  if◌then◌else◌, length,
}
use smartmonitor.Common.Sets.{insert, has, has-insert, IsAscending, insert-IsAscending}
use smartmonitor.AttrDefs.{
  observe_carrier, observe_carriers, set_smart_attributes_to_observe, start_async_update_thread,
}

-- whether the value with this ID was read
unfoldable pub was_read : List Bool → ℕ → Bool
was_read [] n = false
was_read (flag ∷ flags) zero = flag
was_read (flag ∷ flags) (suc n) = was_read flags n

unfoldable pub any_was_read : List (List Bool) → ℕ → Bool
any_was_read [] n = false
any_was_read (flags ∷ carriers) n = was_read flags n || any_was_read carriers n

-- the same for flags that begin with an ID
unfoldable read_from : List Bool → ℕ → ℕ → Bool
read_from [] id n = false
read_from (flag ∷ flags) id n =
    let rest = read_from flags (id + 1) n in if id == n then flag else rest

read_from_past : (flags : List Bool) (id n : ℕ) → n < id → read_from flags id n ≡ false
unfolding read_from
read_from_past [] id n h = refl
read_from_past (flag ∷ flags) id n h = ground (arith, read_from_past flags (id + 1) n)

read_from_lem : (flags : List Bool) (id n : ℕ) → read_from flags id (id + n) ≡ was_read flags n
unfolding read_from was_read
read_from_lem [] id n = refl
read_from_lem (flag ∷ flags) id zero = ground arith
read_from_lem (flag ∷ flags) id (suc n) = ground (arith, read_from_lem flags (id + 1) n)

has-observe_carrier :
    (flags : List Bool) (id n : ℕ) (ids : List ℕ)
    → has (observe_carrier flags id ids) n ≡ (read_from flags id n || has ids n)
unfolding observe_carrier read_from
has-observe_carrier [] id n ids = ground arith
has-observe_carrier (true ∷ flags) id n ids =
    ground (arith, has-observe_carrier flags (id + 1) n (insert id ids), has-insert id ids n)
has-observe_carrier (false ∷ flags) id n ids =
    ground (arith, has-observe_carrier flags (id + 1) n ids, read_from_past flags (id + 1) n)

has-observe_carriers :
    (carriers : List (List Bool)) (n : ℕ) (ids : List ℕ)
    → has (observe_carriers carriers ids) n ≡ (any_was_read carriers n || has ids n)
unfolding observe_carriers any_was_read
has-observe_carriers [] n ids = ground arith
has-observe_carriers (flags ∷ carriers) n ids = ground (
  arith,
  has-observe_carriers carriers n (observe_carrier flags 0 ids),
  has-observe_carrier flags 0 n ids,
  read_from_lem flags 0 n,
)

observe_carrier-IsAscending :
    (flags : List Bool) (id : ℕ) (ids : List ℕ)
    → IsAscending ids
    → IsAscending (observe_carrier flags id ids)
unfolding observe_carrier
observe_carrier-IsAscending [] id ids a = a
observe_carrier-IsAscending (true ∷ flags) id ids a =
    observe_carrier-IsAscending flags (id + 1) (insert id ids) (insert-IsAscending id ids a)
observe_carrier-IsAscending (false ∷ flags) id ids a =
    observe_carrier-IsAscending flags (id + 1) ids a

observe_carriers-IsAscending :
    (carriers : List (List Bool)) (ids : List ℕ)
    → IsAscending ids
    → IsAscending (observe_carriers carriers ids)
unfolding observe_carriers
observe_carriers-IsAscending [] ids a = a
observe_carriers-IsAscending (flags ∷ carriers) ids a =
    observe_carriers-IsAscending carriers (observe_carrier flags 0 ids)
      (observe_carrier-IsAscending flags 0 ids a)

has-nonempty : (ids : List ℕ) (n : ℕ) → has ids n ≡ true → 1 ≤ length ids
unfolding has
has-nonempty [] n h = cc
has-nonempty (id ∷ ids) n h = omega arith

has-observed :
    (carriers : List (List Bool)) (n : ℕ)
    → has (set_smart_attributes_to_observe carriers) n ≡ any_was_read carriers n
unfolding set_smart_attributes_to_observe has
has-observed carriers n = ground (arith, has-observe_carriers carriers n [])

-- Observed are just the attributes that were read from a data carrier, whichever, each once and
-- ascending; when there is one the update thread is started.
pub observed_lem :
    (carriers : List (List Bool))
    → let ids : List ℕ = set_smart_attributes_to_observe carriers in
      IsAscending ids
      × ((n : ℕ) → has ids n ≡ any_was_read carriers n)
      × ((n : ℕ) → (start_async_update_thread ids || not (any_was_read carriers n)) ≡ true)
unfolding set_smart_attributes_to_observe start_async_update_thread
observed_lem carriers = (
  observe_carriers-IsAscending carriers [] tt,
  has-observed carriers,
  λ n.
      ground
        (arith, has-observed carriers n, has-nonempty (set_smart_attributes_to_observe carriers) n),
)
