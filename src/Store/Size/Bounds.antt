-- ===== src/Store/Size/Bounds.antt =====
-- calculateSpace (store/size.go): its results are 64-bit integers.
use image_assembler.Base.{◌-◌, ◌^◌, ◌*◌, ◌+◌}
use image_assembler.Base.Int.{ℤ, pos, negsuc, ◌≤ℤ◌}
use image_assembler.Base.Int64.{add64, wrap64_ge, bits64}
use image_assembler.Store.Size.{
  Tree, leaf, dir, Trees, done, and, space_onto, walk, calculate_space,
}

mutual
  unfolding space_onto add64

  space_onto_ge : (total : ℤ) (t : Tree) → negsuc (2 ^ 63 - 1) ≤ℤ space_onto total t
  space_onto_ge total (leaf blocks content) = wrap64_ge (bits64 total + bits64 (pos (blocks * 512)))
  space_onto_ge total (dir blocks below) =
      walk_ge (add64 total (pos (blocks * 512))) below
        (wrap64_ge (bits64 total + bits64 (pos (blocks * 512))))

  walk_ge :
      (total : ℤ) (ts : Trees) → negsuc (2 ^ 63 - 1) ≤ℤ total → negsuc (2 ^ 63 - 1) ≤ℤ walk total ts
  walk_ge total done h = h
  walk_ge total (and name t ts) h = walk_ge (space_onto total t) ts (space_onto_ge total t)

pub calculate_space_ge : (t : Tree) → negsuc (2 ^ 63 - 1) ≤ℤ calculate_space t
unfolding calculate_space
calculate_space_ge t = space_onto_ge (pos 0) t
