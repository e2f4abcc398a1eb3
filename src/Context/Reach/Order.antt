-- ===== src/Context/Reach/Order.antt =====
-- The order of the relevant files of context/mod.rs.
use memix.Base.{
  sort_by-coarse, ◌≡◌, Bool, true, false, List, arith, leb, number_key, text_key, pair_key,
  bool_key, sort_by, Sorted,
}
use memix.Context.Reach.{RelevantFile, before, is_le, then_with}

abbrev pub no_deeper : RelevantFile → RelevantFile → Bool
no_deeper a b = leb a.depth b.depth

before-no_deeper : (a b : RelevantFile) → before a b ≡ true → no_deeper a b ≡ true
unfolding is_le then_with
before-no_deeper a b h = ground arith

before_total : (a b : RelevantFile) → before a b ≡ false → no_deeper b a ≡ true
unfolding is_le then_with
before_total a b h = ground arith

pub sort-Sorted : (files : List RelevantFile) → Sorted no_deeper (sort_by before files)
sort-Sorted =
    sort_by-coarse before no_deeper before-no_deeper before_total (λ a b c h k. ground arith)
