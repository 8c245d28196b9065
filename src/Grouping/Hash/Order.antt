-- ===== src/Grouping/Hash/Order.antt =====
-- Both hash comparisons are strict weak orders whose ties are the equal hashes.
use bc_duplicate.Prelude.{ℕ, ◌≡◌, refl, sym, ◌∙◌, true, false, arith, Bool-cases, inl, inr, take}
use bc_duplicate.Types.{Entry}
use bc_duplicate.Core.{CoreLibrary, IsStrictOrder}
use bc_duplicate.Grouping.Runs.Classes.{IsSameness}
use bc_duplicate.Grouping.Hash.{
  fast_hash_less_than, same_fast_hash, full_hash_less_than, same_full_hash,
}

pub fast_hash_less_than-IsStrictOrder : IsStrictOrder fast_hash_less_than
unfolding fast_hash_less_than
fast_hash_less_than-IsStrictOrder = record {
  asym = λ a b h. ground arith;
  not_less_trans = λ a b c h k. ground arith;
}

pub same_fast_hash-IsSameness : IsSameness same_fast_hash
same_fast_hash-IsSameness = record {
  same_refl = λ a. ground arith;
  same_sym = λ a b h. ground arith;
  same_trans = λ a b c h k. ground arith;
}

pub same_fast_hash-between :
    (x y z : Entry)
    → fast_hash_less_than y x ≡ false
    → fast_hash_less_than z y ≡ false
    → same_fast_hash x y ≡ false
    → same_fast_hash x z ≡ false
unfolding fast_hash_less_than
same_fast_hash-between x y z h k e = ground arith

module _ (core : CoreLibrary) (digest_size : ℕ) where
  pub full_hash_less_than-IsStrictOrder : IsStrictOrder (full_hash_less_than core digest_size)
  unfolding full_hash_less_than
  full_hash_less_than-IsStrictOrder =
      let order = core.less_bytes_order digest_size in
      record {
        asym = λ a b h. order.asym a.full_hash b.full_hash h;
        not_less_trans = λ a b c h k. order.not_less_trans a.full_hash b.full_hash c.full_hash h k;
      }

  equal_iff :
      (a b : Entry)
      → (same_full_hash core digest_size a b ≡ true)
      → take digest_size b.full_hash ≡ take digest_size a.full_hash
  equal_iff a b h = (core.equal_bytes_iff b.full_hash a.full_hash digest_size).0 h

  pub same_full_hash-IsSameness : IsSameness (same_full_hash core digest_size)
  same_full_hash-IsSameness = record {
    same_refl = λ a. (core.equal_bytes_iff a.full_hash a.full_hash digest_size).1 refl;
    same_sym = λ a b h.
        (core.equal_bytes_iff a.full_hash b.full_hash digest_size).1 (sym (equal_iff a b h));
    same_trans = λ a b c h k.
        (core.equal_bytes_iff c.full_hash a.full_hash digest_size).1
          (equal_iff b c k ∙ equal_iff a b h);
  }

  pub same_full_hash-between :
      (x y z : Entry)
      → full_hash_less_than core digest_size y x ≡ false
      → full_hash_less_than core digest_size z y ≡ false
      → same_full_hash core digest_size x y ≡ false
      → same_full_hash core digest_size x z ≡ false
  unfolding full_hash_less_than
  same_full_hash-between x y z h k e = elim (Bool-cases (same_full_hash core digest_size x z)) [
    | inr apart ↦ apart
    | inl equal ↦
        let ties = (core.equal_bytes_not_less z.full_hash x.full_hash digest_size).0 equal in
        let order = core.less_bytes_order digest_size in
        let back : core.less_bytes x.full_hash y.full_hash digest_size ≡ false =
          order.not_less_trans y.full_hash z.full_hash x.full_hash k ties.1 in
        let tie = (core.equal_bytes_not_less y.full_hash x.full_hash digest_size).1 (h, back) in
        absurd (ground arith)
  ]
