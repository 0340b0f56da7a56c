-- ===== src/Regmerge/Ordering/Insertion.antt =====
-- The two comparisons of the ordering let a sort keep its promise: insertion does.
use hivekit.Common.{◌≡◌, arith, true, false}
use hivekit.Common.Sorting.{IsSorter, sort_by, sort_by-IsSorter}
use hivekit.Merge.Names.Order.{name_lt-not_behind, not_behind_trans}
use hivekit.Regmerge.Ordering.{EditOp, OpGroup, group_less, op_less}

op_less-total : (x y : EditOp) → op_less x y ≡ true → op_less y x ≡ false
unfolding op_less
op_less-total x y h = ground arith

op_less-chain : (x y z : EditOp) → op_less y x ≡ false → op_less z y ≡ false → op_less z x ≡ false
unfolding op_less
op_less-chain x y z h k = ground arith

group_less-total : (x y : OpGroup) → group_less x y ≡ true → group_less y x ≡ false
unfolding group_less
group_less-total x y h = ground (arith, name_lt-not_behind x.path y.path)

group_less-chain :
    (x y z : OpGroup) → group_less y x ≡ false → group_less z y ≡ false → group_less z x ≡ false
unfolding group_less
group_less-chain x y z h k = ground (arith, not_behind_trans x.path y.path z.path)

pub sort_by-op_less : IsSorter op_less (sort_by op_less)
sort_by-op_less = sort_by-IsSorter op_less op_less-total op_less-chain

pub sort_by-group_less : IsSorter group_less (sort_by group_less)
sort_by-group_less = sort_by-IsSorter group_less group_less-total group_less-chain
