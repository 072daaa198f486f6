-- ===== src/AttrDefs/Table.antt =====
-- The table of definitions: what is found behind a sequence of `Set`, and how many there are.
use smartmonitor.Common.{
  ℕ, zero, suc, ◌+◌, ◌≤◌, ◌<◌, ◌≡◌, ◌≢◌, refl, Bool, true, false, ◌&&◌, List, [], ◌∷◌, Option, none,
  some, arith, ltb, Bytes, length, get_elem?, set, All, replicate, length-set, get_elem?-set_self,
  get_elem?-set_ne, ap, ◌∙◌,
}
use smartmonitor.AttrDefs.{
  SmartAttrDef, store, set_def, clear_smart_attr_defs, get_num_smart_attr_defs, get_smart_attr_def,
  set_defs, dflt_smart_attr_defs, set_dflt_smart_attr_def,
}

-- the definition that `Set` stores
abbrev pub row_def : Bool → ℕ × Bytes → SmartAttrDef
row_def memory (id, name) = record {
  critical_attribute = memory;
  attribute_id = id;
  attribute_name = name;
}

abbrev pub no_def : SmartAttrDef
no_def = record { critical_attribute = false; attribute_id = 0; attribute_name = [] }

-- The IDs ascend, behind `lo` and below `hi`.
abbrev pub ascends : ℕ → ℕ → List (ℕ × Bytes) → Bool
ascends lo hi [] = true
ascends lo hi ((id, name) ∷ rows) = ltb lo id && (ltb id hi && ascends id hi rows)

-- Every definition of the rows is found.
abbrev pub Found : Bool → List SmartAttrDef → List (ℕ × Bytes) → Type 0
Found memory defs = All (λ r. get_smart_attr_def defs r.0 ≡ some (row_def memory r))

-- From an ID on there is no definition.
abbrev Empty : List SmartAttrDef → ℕ → Type 0
Empty defs lo = (i : ℕ) → lo < i → i < length defs → get_elem? defs i ≡ some no_def

id_of : Option SmartAttrDef → ℕ
id_of none = 0
id_of (some d) = d.attribute_id

num-set :
    (defs : List SmartAttrDef) (i id : ℕ) (memory : Bool) (name : Bytes)
    → get_elem? defs i ≡ some no_def
    → id ≢ 0
    → get_num_smart_attr_defs (set defs i (row_def memory (id, name)))
      ≡ get_num_smart_attr_defs defs + 1
unfolding get_num_smart_attr_defs id_of
num-set [] i id memory name e n = cc
num-set (d ∷ defs) zero id memory name e n =
    let q : d.attribute_id ≡ 0 = ap id_of e in ground (arith, q)
num-set (d ∷ defs) (suc i) id memory name e n = ground (arith, num-set defs i id memory name e n)

-- the table behind the rows
abbrev Outcome : Bool → ℕ → List SmartAttrDef → List (ℕ × Bytes) → Type 0
Outcome memory lo defs rows =
    (later : List SmartAttrDef) × (set_defs memory defs rows ≡ some later)
    × (length later ≡ length defs)
    × (get_num_smart_attr_defs later ≡ get_num_smart_attr_defs defs + length rows)
    × Found memory later rows
    × ((i : ℕ) → i ≤ lo → get_elem? later i ≡ get_elem? defs i)

set_def_lem :
    (memory : Bool) (defs : List SmartAttrDef) (id : ℕ) (name : Bytes)
    → id < length defs
    → set_def memory defs id name ≡ some (set defs id (row_def memory (id, name)))
unfolding set_def store
set_def_lem memory defs id name h = ground arith

set_defs_lem :
    (memory : Bool) (rows : List (ℕ × Bytes)) (lo : ℕ) (defs : List SmartAttrDef)
    → ascends lo (length defs) rows ≡ true
    → Empty defs lo
    → Outcome memory lo defs rows
unfolding set_defs set_def store get_smart_attr_def
set_defs_lem memory [] lo defs a e = (defs, refl, refl, omega arith, tt, λ i h. refl)
set_defs_lem memory ((id, name) ∷ rows) lo defs a e =
    let h : (lo < id) × (id < length defs) = ground arith in
    let defs' : List SmartAttrDef = set defs id (row_def memory (id, name)) in
    let l : length defs' ≡ length defs = length-set defs id (row_def memory (id, name)) in
    let a' : ascends id (length defs') rows ≡ true = ground arith in
    let e' : Empty defs' id =
      λ i p q. get_elem?-set_ne defs id i _ (λ c. omega arith) ∙ e i (omega arith) (omega arith) in
    let (later, s, m, n, f, k) = set_defs_lem memory rows id defs' a' e' in
    (
      later,
      rw (set_def_lem memory defs id name (h.1)) s,
      m ∙ l,
      omega (arith, num-set defs id id memory name (e id h.0 h.1) (λ c. omega arith)),
      (k id (omega arith) ∙ get_elem?-set_self defs id _ h.1, f),
      λ i p. k i (omega arith) ∙ get_elem?-set_ne defs id i _ (λ c. omega arith),
    )

pub clear_lem :
    (defs : List SmartAttrDef) → clear_smart_attr_defs defs ≡ replicate (length defs) no_def
unfolding clear_smart_attr_defs
clear_lem [] = refl
clear_lem (d ∷ defs) = ap (λ r. no_def ∷ r) (clear_lem defs)

pub num-empty : (n : ℕ) → get_num_smart_attr_defs (replicate n no_def) ≡ 0
unfolding get_num_smart_attr_defs
num-empty zero = refl
num-empty (suc n) = num-empty n

pub empty_at : (n i : ℕ) → i < n → get_elem? (replicate n no_def) i ≡ some no_def
empty_at zero i h = absurd (omega arith)
empty_at (suc n) zero h = refl
empty_at (suc n) (suc i) h = empty_at n i (omega arith)

pub length-replicate : (n : ℕ) → length (replicate n no_def) ≡ n
length-replicate zero = refl
length-replicate (suc n) = ap suc (length-replicate n)

ascends_weaken :
    (lo hi more : ℕ) (rows : List (ℕ × Bytes))
    → hi ≤ more
    → ascends lo hi rows ≡ true
    → ascends lo more rows ≡ true
ascends_weaken lo hi more [] h a = refl
ascends_weaken lo hi more ((id, name) ∷ rows) h a = ground (arith, ascends_weaken id hi more rows)

-- what holds of a cleared table that was filled with rows
abbrev pub Filled : Bool → List SmartAttrDef → List (ℕ × Bytes) → Type 0
Filled memory defs rows =
    (later : List SmartAttrDef) × (set_defs memory (clear_smart_attr_defs defs) rows ≡ some later)
    × (length later ≡ length defs)
    × (get_num_smart_attr_defs later ≡ length rows)
    × Found memory later rows

filled_lem :
    (memory : Bool) (defs : List SmartAttrDef) (rows : List (ℕ × Bytes))
    → ascends 0 (length defs) rows ≡ true
    → Filled memory defs rows
filled_lem memory defs rows a =
    let c = replicate (length defs) no_def in
    let l : length c ≡ length defs = length-replicate (length defs) in
    let a' : ascends 0 (length c) rows ≡ true = rw (l) a in
    let e' : Empty c 0 = λ i p q. empty_at (length defs) i (omega (arith, l)) in
    let (later, s, m, n, f, k) = set_defs_lem memory rows 0 c a' e' in
    (later, rw (clear_lem defs) s, m ∙ l, omega (arith, n, num-empty (length defs)), f)

-- After `clearSMARTattrDefs` there is no definition. The default definitions then all go into an array
-- of at least 255, each is found by its ID, and they are counted right.
pub default_defs_lem :
    (memory : Bool) (defs : List SmartAttrDef)
    → 255 ≤ length defs
    → (get_num_smart_attr_defs (clear_smart_attr_defs defs) ≡ 0)
      × ((later : List SmartAttrDef) × (set_dflt_smart_attr_def memory (clear_smart_attr_defs defs)
            ≡ some later)
          × (length later ≡ length defs)
          × (get_num_smart_attr_defs later ≡ length dflt_smart_attr_defs)
          × Found memory later dflt_smart_attr_defs)
unfolding set_dflt_smart_attr_def
default_defs_lem memory defs h = (
  rw (clear_lem defs) (num-empty (length defs)),
  filled_lem memory defs dflt_smart_attr_defs
      (ascends_weaken 0 255 (length defs) dflt_smart_attr_defs h refl),
)
