-- ===== src/Examples/TextUi.antt =====
-- The attributes 5 and 9 have labels, 12 has none.
use smartmonitor.Common.{ℕ, ◌≡◌, refl, List, [], ◌∷◌, Bytes, codes, some}
use smartmonitor.TextUi.{Table, line_of, place, re_build_user_interface}
use smartmonitor.TextUi.Lines.{place_all, initial_table, lines_lem}

abbrev names : List (Bytes × ℕ)
names = (codes "ID", 3) ∷ (codes "name", 20) ∷ []

abbrev built : Table
built = re_build_user_interface names (place_all (5 ∷ 9 ∷ [])) initial_table

lines_lem_example :
    ((a b l : ℕ) → line_of built.lines a ≡ some l → line_of built.lines b ≡ some l → a ≡ b)
    × (line_of (place 12 built).lines 5 ≡ some 2)
    × (line_of (place 12 built).lines 12 ≡ some 2)
unfolding re_build_user_interface place_all place line_of
lines_lem_example = lines_lem names 5 (9 ∷ []) 12 refl
