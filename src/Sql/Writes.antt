-- ===== src/Sql/Writes.antt =====
-- What sqlite documents of a statement: the rows of each table before and after.
use vcd.Base.{
  false, not, String, List, [], ◌∷◌, ◌++◌, map, ◌≡◌, if◌then◌else◌, str_equal, any, keep,
}
use vcd.Sql.{
  Value, Row, Contents, Schema, Stmt, insert, replace, delete, update, count, holds, conflicts,
  assign, has_conflict, put_rows,
}

-- A row that breaks a unique index pushes out the rows in its way.
unfoldable pub replace_rows : List (List String) → Row → List Row → List Row
unfolding conflicts keep
replace_rows ks r rs = keep (λ s. not (conflicts ks r s)) rs ++ r ∷ []

unfoldable pub delete_rows : Row → List Row → List Row
unfolding holds keep
delete_rows w rs = keep (λ s. not (holds w s)) rs

unfoldable pub update_rows : String → Value → Row → List Row → List Row
unfolding holds assign
update_rows c v w rs = map (λ s. if holds w s then assign c v s else s) rs

-- A statement that went through took the rows of the first contents to those of the second.
abbrev pub Does : Schema → Stmt → Contents → Contents → Type 0
Does keys (insert t r) c d =
    (any (conflicts (keys t) r) (c t) ≡ false) × (d ≡ put_rows t (c t ++ r ∷ []) c)
Does keys (replace t r) c d = d ≡ put_rows t (replace_rows (keys t) r (c t)) c
Does keys (delete t w) c d = d ≡ put_rows t (delete_rows w (c t)) c
Does keys (update t k v w) c d =
    (has_conflict (keys t) (update_rows k v w (c t)) ≡ false)
    × (d ≡ put_rows t (update_rows k v w (c t)) c)
Does keys (count cs) c d = (t : String) → str_equal "vcd" t ≡ false → d t ≡ c t

abbrev pub DoesAll : Schema → List Stmt → Contents → Contents → Type 0
DoesAll keys [] c d = d ≡ c
DoesAll keys (s ∷ ss) c d = (m : Contents) × Does keys s c m × DoesAll keys ss m d
