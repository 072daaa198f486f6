-- ===== src/Examples/ListTable.antt =====
-- The tables of the graphical user interface over a list that an item is inserted into.
use smartmonitor.Common.{
  ℕ, zero, suc, ◌≤◌, ◌≡◌, refl, ap, List, [], ◌∷◌, ◌++◌, some, arith, length, get_elem?, replicate,
}
use smartmonitor.ListTable.{
  Lines, create_lines, create_ata_cols, id_col, name_col, nrmlzd_curr_val, nrmlzd_thresh, raw_val,
  human_readable_raw_val, unit_col, unit_range, last_update,
}
use smartmonitor.ListTable.OwnLine.{create_lines_lem}

abbrev insert_at {ℓ} : {A : Type ℓ} → List A → ℕ → A → List A
insert_at [] pos x = x ∷ []
insert_at (y ∷ ys) zero x = x ∷ y ∷ ys
insert_at (y ∷ ys) (suc pos) x = y ∷ insert_at ys pos x

insert_at_end :
    (items : List ℕ) (pos x : ℕ) → length items ≤ pos → insert_at items pos x ≡ items ++ (x ∷ [])
insert_at_end [] pos x h = refl
insert_at_end (y ∷ ys) zero x h = absurd (omega arith)
insert_at_end (y ∷ ys) (suc pos) x h = ap (λ r. y ∷ r) (insert_at_end ys pos x (omega arith))

-- Though the name is inserted after the normalized values, the columns stand in their order.
columns_in_order :
    create_ata_cols insert_at
    ≡ id_col ∷ name_col ∷ nrmlzd_curr_val ∷ nrmlzd_thresh ∷ raw_val ∷ human_readable_raw_val
      ∷ unit_col ∷ unit_range ∷ last_update ∷ []
unfolding create_ata_cols
columns_in_order = refl

create_lines_lem_example :
    (u : Lines) × ((create_lines insert_at 4
          (1 ∷ 5 ∷ 0 ∷ [])
          (record { line_number = replicate 8 0; items = [] })
        ≡ some u)
      × ((u.items ≡ 1 ∷ 5 ∷ [])
          × ((k x : ℕ) → get_elem? (1 ∷ 5 ∷ []) k ≡ some x → get_elem? u.line_number x ≡ some k)))
create_lines_lem_example =
    create_lines_lem insert_at insert_at_end (1 ∷ 5 ∷ []) [] 4 (replicate 8 0) (ground arith)
      (ground arith) (ground arith) (omega arith)
