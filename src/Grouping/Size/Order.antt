-- ===== src/Grouping/Size/Order.antt =====
-- The comparison by size, device and inode is a strict weak order, and sorts equal sizes together.
use bc_duplicate.Prelude.{◌≡◌, false, arith, ◌==◌, ◌&&◌, Bool, List}
use bc_duplicate.Types.{Entry}
use bc_duplicate.Core.{IsStrictOrder, IsSorted}
use bc_duplicate.Grouping.Runs.Classes.{IsSameness, IsClustered}
use bc_duplicate.Grouping.Runs.Clustered.{IsOrdered-IsClustered}
use bc_duplicate.Grouping.Size.{size_dev_ino_less_than, same_size, same_inode}

pub size_dev_ino_less_than-IsStrictOrder : IsStrictOrder size_dev_ino_less_than
unfolding size_dev_ino_less_than
size_dev_ino_less_than-IsStrictOrder = record {
  asym = λ a b h. ground arith;
  not_less_trans = λ a b c h k. ground arith;
}

pub same_size-IsSameness : IsSameness same_size
same_size-IsSameness = record {
  same_refl = λ a. ground arith;
  same_sym = λ a b h. ground arith;
  same_trans = λ a b c h k. ground arith;
}

-- Two entries for the same file, as the collapse tells it within a run of equal size.
abbrev pub same_link : Entry → Entry → Bool
same_link a b = a.file_size == b.file_size && same_inode a b

pub same_link-IsSameness : IsSameness same_link
same_link-IsSameness = record {
  same_refl = λ a. ground arith;
  same_sym = λ a b h. ground arith;
  same_trans = λ a b c h k. ground arith;
}

pub same_size-between :
    (x y z : Entry)
    → size_dev_ino_less_than y x ≡ false
    → size_dev_ino_less_than z y ≡ false
    → same_size x y ≡ false
    → same_size x z ≡ false
unfolding size_dev_ino_less_than
same_size-between x y z h k e = ground arith

pub same_link-between :
    (x y z : Entry)
    → size_dev_ino_less_than y x ≡ false
    → size_dev_ino_less_than z y ≡ false
    → same_link x y ≡ false
    → same_link x z ≡ false
unfolding size_dev_ino_less_than
same_link-between x y z h k e = ground arith

pub IsSorted-IsClustered :
    (l : List Entry) → IsSorted size_dev_ino_less_than l → IsClustered same_size l
IsSorted-IsClustered l = IsOrdered-IsClustered _ same_size same_size-between l
