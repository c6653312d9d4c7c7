-- ===== src/Tests/Stores.antt =====
-- A store with one object to commit, and sizes, at concrete inputs.
use image_assembler.Base.{
  ℕ, String, true, false, none, some, List, [], ◌∷◌, ◌≡◌, ◌≢◌, refl, inl, inr, lookup, insert,
  delete, str_eq_iff, str_eq, arith, get_elem?,
}
use image_assembler.Base.Int.{pos, negsuc, wrap64}
use image_assembler.Base.Int64.{add64, mul64, neg64}
use image_assembler.Base.Result.{ok}
use image_assembler.Base.Atoi.{codes, decimal, is_digit, parse_int}
use image_assembler.Store.Size.{
  Tree, leaf, dir, and, done, parse_size, pattern_of, calculate_space, is_space, find_submatch,
  is_blank, scale,
}
use image_assembler.Store.Size.Exact.{parse_size_exact}
use image_assembler.Store.Model.{
  in_stage, in_cache, mode_write, mode_read, Object, Entry, Store, Faults, all_written, cut_off,
  storing, evicting, storing_again,
}
use image_assembler.Store.Evict.{
  ObjectInfo, update_cache_size, remove_lru, over_limit, evictable, evict_loop, object_infos, evict,
  evicted_size, without_digits,
}
use image_assembler.Store.Evict.Limit.{IsWithinLimit}
use image_assembler.Store.Evict.Lru.{remove_lru_in_order}
use image_assembler.Store.Cache.{commit, commit_object, commit_tree, count_size, installed, tree_at}
use image_assembler.Store.Cache.Bounded.{commit-IsWithinLimit}
use image_assembler.Store.Cache.Committed.{commit_stores}

abbrev pub no_faults : Faults
no_faults = record {
  mkdir = false;
  lock = false;
  copy = false;
  info = false;
  metadata = false;
  read_dir = false;
  space = λ at. false;
  size = λ at. record { unusable = false; digits_unread = 0; written = all_written };
}

abbrev pub in_listed_order : List ObjectInfo → List ObjectInfo
in_listed_order os = os

-- 1024 bytes, in a directory and a file.
abbrev pub built : Tree
built = dir 1 (and "f" (leaf 1 "x") done)

abbrev pub being_built : Object
being_built = record {
  id = "pipeline";
  mode = mode_write;
  path = in_stage "u";
  stage_path = some "u";
  meta_path = in_stage "u";
  source_epoch = none;
}

abbrev old_entry : Entry
old_entry = record {
  lock = some (pos 5);
  data_tree = some (leaf 4 "y");
  recorded = some (pos 2048);
}

abbrev pub with_limit : ℕ → Store
with_limit limit = record {
  objs = ("pipeline", 0) ∷ [];
  heap = being_built ∷ [];
  read_only = false;
  lock_held = true;
  host_tree = false;
  maximum_size = pos limit;
  objects = ("old", old_entry) ∷ [];
  staged = ("u", built) ∷ [];
  size_file = pos 2048;
  info_file = none;
}

-- When the new object is counted again, cache.size is left with its first two digits.
abbrev torn : Faults
torn = record no_faults {
  size = λ at. elim at [
    | storing ↦ record { unusable = false; digits_unread = 0; written = all_written }
    | evicting name ↦ record { unusable = false; digits_unread = 0; written = all_written }
    | storing_again ↦ record { unusable = false; digits_unread = 0; written = cut_off 2 }
  ];
}

-- The limit is met only after the old object is evicted.
commit-IsWithinLimit_example :
    IsWithinLimit (commit in_listed_order torn (pos 9) 0 "new" (with_limit 2500)).0
commit-IsWithinLimit_example =
    commit-IsWithinLimit in_listed_order torn (pos 9) 0 "new" (with_limit 2500)
      (2048, 2500, refl, refl, omega arith, omega arith, omega arith)

torn_size : (commit in_listed_order torn (pos 9) 0 "new" (with_limit 2500)).0.size_file ≡ pos 10
unfolding commit commit_object lookup str_eq commit_tree tree_at count_size update_cache_size
    calculate_space add64 wrap64 installed remove_lru insert mul64 neg64 without_digits
torn_size = refl

commit_evicts :
    (commit in_listed_order no_faults (pos 9) 0 "new" (with_limit 2500)).0.size_file ≡ pos 1024
unfolding commit commit_object lookup str_eq commit_tree tree_at count_size update_cache_size
    calculate_space add64 wrap64 installed remove_lru insert mul64 neg64 without_digits
commit_evicts = refl

commit_stores_example :
    let r = commit in_listed_order no_faults (pos 9) 0 "new" (with_limit 4096) in
    (r.1 ≡ ok tt)
    × (tree_at (in_cache "new") r.0 ≡ some built)
    × (get_elem? r.0.heap 0
        ≡ some (record being_built { path = in_cache "new"; mode = mode_read; stage_path = none }))
    × ((j : String) → "new" ≢ j → lookup j r.0.objects ≡ lookup j (with_limit 4096).objects)
unfolding tree_at lookup str_eq over_limit calculate_space add64 wrap64 without_digits
commit_stores_example =
    commit_stores in_listed_order no_faults (pos 9) 0 being_built "new" built (with_limit 4096) refl
      refl refl refl (refl, refl, refl, refl) refl

parse_size_exact_example : parse_size (codes "20GiB") ≡ some (pos 21474836480)
unfolding decimal
parse_size_exact_example =
    parse_size_exact 5 (pattern_of "GiB" 1024 3) (codes "20") 20 refl refl (omega arith)

-- 2^33 GiB is 2^63 bytes, which wraps.
parse_size_wraps : parse_size (codes "8589934592GiB") ≡ some (negsuc 9223372036854775807)
unfolding parse_size is_space find_submatch is_blank is_digit parse_int scale mul64 wrap64
parse_size_wraps = refl

abbrev newer_entry : Entry
newer_entry = record {
  lock = some (pos 6);
  data_tree = some (leaf 4 "y");
  recorded = some (pos 2048);
}

abbrev two_cached : Store
two_cached = record (with_limit 4096) {
  objects = ("old", old_entry) ∷ ("newer", newer_entry) ∷ [];
  size_file = pos 4096;
}

abbrev info : String → ℕ → ObjectInfo
info name used = record { name = name; last_used = pos used }

both_evicted : (remove_lru in_listed_order no_faults (pos 2048) two_cached).0.objects ≡ []
unfolding remove_lru lookup str_eq calculate_space add64 wrap64 mul64 neg64 evictable evict_loop
    object_infos evict evicted_size update_cache_size delete without_digits
both_evicted = refl

old_ne_newer : ◌≢◌ {A = String} "old" "newer"
unfolding str_eq
old_ne_newer = ground (arith, str_eq_iff "old" "newer")

remove_lru_in_order_example :
    lookup "old" (remove_lru in_listed_order no_faults (pos 2048) two_cached).0.objects ≡ none
unfolding remove_lru lookup str_eq calculate_space add64 wrap64 mul64 neg64 evictable evict_loop
    object_infos evict evicted_size update_cache_size delete without_digits
remove_lru_in_order_example =
    remove_lru_in_order in_listed_order no_faults (pos 2048) two_cached (info "old" 5)
      (info "newer" 6) old_entry newer_entry (((refl, old_ne_newer), tt), (tt, tt)) (inl refl)
      (inr (inl refl)) refl refl refl refl
