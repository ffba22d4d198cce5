-- ===== src/Composed/Tests.antt =====
-- A table with two compositions.
use foot.Base.{ℕ, ◌≡◌, refl, arith, [], ◌∷◌, Option, some, if◌then◌else◌, ◌==◌}
use foot.Composed.{
  Composed, Tree, leaf, node, composed_lookup, composed_insert, composed_lookup_without_collision,
}
use foot.Composed.Lookup.{Ended, composed_lookup-insert, composed_lookup_without_collision-Ended}

abbrev composition : ℕ → Composed
composition key = record {
  chars = 0x65 ∷ 0x301 ∷ [];
  key = key;
  count = 2;
  width = 1;
  forced_width = 0;
}

abbrev small_table : Tree
small_table = node (node leaf (composition 3) leaf) (composition 8) leaf

composed_lookup-insert_example :
    composed_lookup (composed_insert (composition 5) small_table) 5
    ≡ (if 5 == 5 then some (composition 5) else composed_lookup small_table 5)
unfolding composed_lookup
composed_lookup-insert_example = composed_lookup-insert (composition 5) small_table 5 refl

composed_lookup_without_collision-Ended_example :
    (o : Option Composed) × (k : ℕ) × (composed_lookup_without_collision small_table 3
        (0x65 ∷ [])
        0x302
        0
      ≡ some (o, k))
    × Ended small_table (0x65 ∷ []) 0x302 0 o k
unfolding composed_lookup
composed_lookup_without_collision-Ended_example =
    composed_lookup_without_collision-Ended small_table (0x65 ∷ []) 0x302 0 3 4 (omega arith)
      (omega arith) refl
