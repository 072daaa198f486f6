-- ===== src/CfgLoader/Definitions.antt =====
-- What is in the tables behind the files with the definitions.
use smartmonitor.Common.{
  ℕ, zero, suc, ◌+◌, ◌<◌, ◌≡◌, refl, true, List, [], ◌∷◌, Option, some, arith, ◌==◌, if◌then◌else◌,
  Bytes, length, get_elem?, set, All, length-set, ap, sym, subst, ◌∙◌, Bool-cases, inl, inr,
}
use smartmonitor.Common.Texts.{same}
use smartmonitor.AttrDefs.{
  SmartAttrDef, store, add, clear_smart_attr_defs, get_num_smart_attr_defs, get_smart_attr_def,
}
use smartmonitor.AttrDefs.Table.{no_def, clear_lem, num-empty, empty_at, length-replicate}
use smartmonitor.CfgLoader.{
  DefElement, Tables, ata_defs, nvme_defs, add_to, is_critical, name_or, read_def_elements,
  read_smart_attr_defs,
}

-- The IDs lie in the array.
abbrev pub InRange : ℕ → List DefElement → Type 0
InRange size = All (λ e. e.id < size)

-- The definitions that the elements stand for: an element with no name has that of the one before.
unfoldable pub defs_of : Bytes → List DefElement → List SmartAttrDef
defs_of before [] = []
defs_of before (e ∷ es) =
    let name = name_or before e.name in
    let rest = defs_of name es in
    let d : SmartAttrDef = record {
      critical_attribute = is_critical e.critical;
      attribute_id = e.id;
      attribute_name = name;
    } in
    if e.id == 0 then defs_of before es else if same name [] then rest else d ∷ rest

-- the last definition with an ID, or what was there before
unfoldable pub last_def : ℕ → List SmartAttrDef → Option SmartAttrDef → Option SmartAttrDef
last_def id [] before = before
last_def id (d ∷ ds) before = last_def id ds (if d.attribute_id == id then some d else before)

-- a table that holds the definitions, later ones over earlier ones
abbrev pub Holds : List SmartAttrDef → List SmartAttrDef → List SmartAttrDef → Type 0
Holds before ds after =
    (length after ≡ length before)
    × ((id : ℕ)
        → id < length before
        → get_smart_attr_def after id ≡ last_def id ds (get_smart_attr_def before id))

add_lem :
    (defs : List SmartAttrDef) (d : SmartAttrDef)
    → d.attribute_id < length defs
    → add defs d ≡ some (set defs d.attribute_id d)
unfolding add store
add_lem defs d h = ground arith

set_at :
    (defs : List SmartAttrDef) (i id : ℕ) (d : SmartAttrDef)
    → id < length defs
    → get_elem? (set defs i d) id ≡ (if i == id then some d else get_elem? defs id)
set_at [] i id d h = absurd (omega arith)
set_at (x ∷ xs) zero zero d h = refl
set_at (x ∷ xs) zero (suc id) d h = ground arith
set_at (x ∷ xs) (suc i) zero d h = ground arith
set_at (x ∷ xs) (suc i) (suc id) d h = ground (arith, set_at xs i id d)

-- what the loop over the elements makes of the table for ATA
abbrev Reads : Tables → List SmartAttrDef → Option (Tables × ℕ) → Type 0
Reads t ds r =
    (later : Tables) × (v : ℕ) × (r ≡ some (later, v))
    × (later.nvme ≡ t.nvme)
    × Holds t.ata ds later.ata

Reads-cons :
    (t : Tables) (d : SmartAttrDef) (ds : List SmartAttrDef) (r : Option (Tables × ℕ))
    → d.attribute_id < length t.ata
    → Reads (record t { ata = set t.ata d.attribute_id d }) ds r
    → Reads t (d ∷ ds) r
unfolding last_def get_smart_attr_def
Reads-cons t d ds r h (later, v, e, n, (l, g)) = (
  later,
  v,
  e,
  n,
  (
    l ∙ length-set t.ata d.attribute_id d,
    λ id k.
        g id (omega (arith, length-set t.ata d.attribute_id d))
        ∙ ap (last_def id ds) (set_at t.ata d.attribute_id id d k),
  ),
)

InRange-set :
    (defs : List SmartAttrDef) (d : SmartAttrDef) (es : List DefElement)
    → InRange (length defs) es
    → InRange (length (set defs d.attribute_id d)) es
InRange-set defs d es h = rw (length-set defs d.attribute_id d) h

read_ata_lem :
    (es : List DefElement) (before : Bytes) (t : Tables) (w : ℕ)
    → InRange (length t.ata) es
    → Reads t (defs_of before es) (read_def_elements ata_defs es before t w)
unfolding read_def_elements defs_of last_def add_to
read_ata_lem [] before t w h = (t, w, refl, refl, (refl, λ id k. refl))
read_ata_lem (e ∷ es) before t w (h, hs) = elim (Bool-cases (e.id == 0)) [
  | inl z ↦ rw (z) (read_ata_lem es before t (w + 1) hs)
  | inr z ↦ elim (Bool-cases (same (name_or before e.name) [])) [
    | inl q ↦ rw (z, q) (read_ata_lem es (name_or before e.name) t w hs)
    | inr q ↦
        let name = name_or before e.name in
        let d : SmartAttrDef = record {
          critical_attribute = is_critical e.critical;
          attribute_id = e.id;
          attribute_name = name;
        } in
        rw (z, q, add_lem t.ata d h)
          (Reads-cons t d (defs_of name es) _ h (
            read_ata_lem es name (record t { ata = set t.ata e.id d }) w
              (InRange-set t.ata d es hs)))
  ]
]

length-clear : (defs : List SmartAttrDef) → length (clear_smart_attr_defs defs) ≡ length defs
length-clear defs = rw (clear_lem defs) (length-replicate (length defs))

cleared_at :
    (defs : List SmartAttrDef) (id : ℕ)
    → id < length defs
    → get_elem? (clear_smart_attr_defs defs) id ≡ some no_def
cleared_at defs id h = rw (clear_lem defs) (empty_at (length defs) id h)

-- A file of definitions for (S)ATA whose IDs lie in the array is read, and behind it each ID of the
-- array has the last definition that the file gives it, or none; what was there before is gone.
pub ata_definitions :
    (e : DefElement) (es : List DefElement) (t : Tables)
    → InRange (length t.ata) (e ∷ es)
    → (later : Tables) × (v : ℕ) × (read_smart_attr_defs ata_defs (some (e ∷ es)) t
        ≡ some (true, (later, v)))
      × ((id : ℕ)
          → id < length t.ata
          → get_smart_attr_def later.ata id ≡ last_def id (defs_of [] (e ∷ es)) (some no_def))
unfolding read_smart_attr_defs get_smart_attr_def
ata_definitions e es t h =
    let c : Tables = record t { ata = clear_smart_attr_defs t.ata } in
    let l : length c.ata ≡ length t.ata = length-clear t.ata in
    let h' : InRange (length c.ata) (e ∷ es) = subst (λ n. InRange n (e ∷ es)) (sym l) h in
    let (later, v, r, n, (m, g)) = read_ata_lem (e ∷ es) [] c 0 h' in
    (
      later,
      v,
      rw (r) refl,
      λ id k.
          g id (omega (arith, l)) ∙ ap (last_def id (defs_of [] (e ∷ es))) (cleared_at t.ata id k),
    )

-- the loop over the elements for NVMe
abbrev Kept : Tables → Option (Tables × ℕ) → Type 0
Kept t r = (later : Tables) × (v : ℕ) × (r ≡ some (later, v)) × (later.ata ≡ t.ata)

read_nvme_lem :
    (es : List DefElement) (before : Bytes) (t : Tables) (w : ℕ)
    → InRange (length t.nvme) es
    → Kept t (read_def_elements nvme_defs es before t w)
unfolding read_def_elements add_to
read_nvme_lem [] before t w h = (t, w, refl, refl)
read_nvme_lem (e ∷ es) before t w (h, hs) = elim (Bool-cases (e.id == 0)) [
  | inl z ↦ rw (z) (read_nvme_lem es before t (w + 1) hs)
  | inr z ↦ elim (Bool-cases (same (name_or before e.name) [])) [
    | inl q ↦ rw (z, q) (read_nvme_lem es (name_or before e.name) t w hs)
    | inr q ↦
        let name = name_or before e.name in
        let d : SmartAttrDef = record {
          critical_attribute = is_critical e.critical;
          attribute_id = e.id;
          attribute_name = name;
        } in
        rw (z, q, add_lem t.nvme d h)
          (read_nvme_lem es name (record t { nvme = set t.nvme e.id d }) w
            (InRange-set t.nvme d es hs))
  ]
]

-- A file of definitions for NVMe whose IDs lie in the array is read, and behind it there is no
-- definition for (S)ATA left, whatever was read before.
pub nvme_clears_ata :
    (e : DefElement) (es : List DefElement) (t : Tables)
    → InRange (length t.nvme) (e ∷ es)
    → (later : Tables) × (v : ℕ) × (read_smart_attr_defs nvme_defs (some (e ∷ es)) t
        ≡ some (true, (later, v)))
      × (get_num_smart_attr_defs later.ata ≡ 0)
unfolding read_smart_attr_defs
nvme_clears_ata e es t h =
    let c : Tables = record t { ata = clear_smart_attr_defs t.ata } in
    let (later, v, r, n) = read_nvme_lem (e ∷ es) [] c 0 h in
    (
      later,
      v,
      rw (r) refl,
      ap get_num_smart_attr_defs n
          ∙ (ap get_num_smart_attr_defs (clear_lem t.ata) ∙ num-empty (length t.ata)),
    )
