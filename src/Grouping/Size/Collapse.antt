-- ===== src/Grouping/Size/Collapse.antt =====
-- `collapse_loop`, in place: it computes `collapse_after` and never leaves the array.
use bc_duplicate.Prelude.{
  ℕ, suc, ◌+◌, ◌-◌, ◌≤◌, ◌≡◌, refl, ap, ◌∙◌, true, false, List, [], ◌∷◌, ◌++◌, arith, length, take,
  drop, set, ◌==◌, if◌then◌else◌, Bool-cases, inl, inr, length-append, take-set, drop-set,
  length-set,
}
use bc_duplicate.Arrays.{read_at-drop, read_at-take, drop-cons-lt, drop-suc, take-suc}
use mathlib.Core.List.{append_assoc}
use bc_duplicate.Types.{Entry}
use bc_duplicate.Outcome.{done, read_at}
use bc_duplicate.Grouping.Size.{same_inode, collapse_loop}
use bc_duplicate.Grouping.Size.Links.{collapse_after}

-- After the loop the kept entries stand at the front, and what lies behind the range is untouched.
pub record IsCollapsed (kept : List Entry) (last : Entry) (run tail entries : List Entry)
    (read write collapsed : ℕ) (r : List Entry × ℕ) : Type 0 where
  pub front :
      take (write + length (collapse_after last run)) r.0 ≡ kept ++ last ∷ collapse_after last run
  pub behind : drop (read + length run) r.0 ≡ tail
  pub same_length_array : length r.0 ≡ length entries
  pub counted : r.1 + length (collapse_after last run) ≡ collapsed + length run

module _ (kept : List Entry) (last x : Entry) (run tail entries : List Entry)
    (read write collapsed : ℕ) (r : List Entry × ℕ) where
  IsCollapsed-skip :
      same_inode x last ≡ true
      → IsCollapsed kept last run tail entries (suc read) write (suc collapsed) r
      → IsCollapsed kept last (x ∷ run) tail entries read write collapsed r
  IsCollapsed-skip linked c = record {
    front = rw linked c.front;
    behind = ap (λ n. drop n r.0) (omega arith) ∙ c.behind;
    same_length_array = c.same_length_array;
    counted = rw linked (omega (arith, c.counted));
  }

  IsCollapsed-keep :
      (moved : List Entry)
      → same_inode x last ≡ false
      → length moved ≡ length entries
      → IsCollapsed (kept ++ last ∷ []) x run tail moved (suc read) (suc write) collapsed r
      → IsCollapsed kept last (x ∷ run) tail entries read write collapsed r
  IsCollapsed-keep moved apart e c = record {
    front = rw apart (
        ap (λ n. take n r.0) (omega arith)
        ∙ c.front
        ∙ append_assoc kept (last ∷ []) (x ∷ collapse_after x run));
    behind = ap (λ n. drop n r.0) (omega arith) ∙ c.behind;
    same_length_array = c.same_length_array ∙ e;
    counted = rw apart (omega (arith, c.counted));
  }

-- The entry at `read` is moved down to `write`.
module _ (front_part rest entries : List Entry) (x : Entry) (read write : ℕ) (below : write ≤ read)
    (front : take write entries ≡ front_part) (behind : drop read entries ≡ x ∷ rest) where
  abbrev moved_down : List Entry
  moved_down = if write == read then entries else set entries write x

  length-moved_down : length moved_down ≡ length entries
  length-moved_down = ground (arith, length-set entries write x)

  take-moved_down : take (suc write) moved_down ≡ front_part ++ x ∷ []
  take-moved_down = elim (Bool-cases (write == read)) [
    | inl here ↦
        let e : read ≡ write = ground arith in
        rw here (take-suc write entries rest x (rw e at behind) ∙ ap (λ l. l ++ x ∷ []) front)
    | inr gap ↦ rw gap (
        take-set entries write x (omega (arith, drop-cons-lt read entries rest x behind))
        ∙ ap (λ l. l ++ x ∷ []) front)
  ]

  drop-moved_down : drop (suc read) moved_down ≡ rest
  drop-moved_down = elim (Bool-cases (write == read)) [
    | inl here ↦ rw here (drop-suc read entries rest x behind)
    | inr gap ↦
        rw gap
          (drop-set entries write (suc read) x (omega arith) ∙ drop-suc read entries rest x behind)
  ]

pub collapse_loop-IsCollapsed :
    (run kept tail entries : List Entry) (last : Entry) (read write collapsed : ℕ)
    → write ≡ suc (length kept)
    → write ≤ read
    → take write entries ≡ kept ++ last ∷ []
    → drop read entries ≡ run ++ tail
    → (r : List Entry × ℕ) × (collapse_loop (length run) entries read write collapsed ≡ done r)
      × IsCollapsed kept last run tail entries read write collapsed r
unfolding collapse_loop
collapse_loop-IsCollapsed [] kept tail entries last read write collapsed w below front behind = (
  (entries, collapsed),
  refl,
  record {
    front = ap (λ n. take n entries) (omega arith) ∙ front;
    behind = ap (λ n. drop n entries) (omega arith) ∙ behind;
    same_length_array = refl;
    counted = refl;
  },
)
collapse_loop-IsCollapsed (x ∷ run) kept tail entries last read write collapsed w below front
      behind =
    let cell : read_at entries (write - 1) ≡ done last =
      read_at-take (write - 1) entries kept last (omega arith)
        (ap (λ n. take n entries) (let e : suc (write - 1) ≡ write = omega arith in e) ∙ front) in
    rw (read_at-drop read entries (run ++ tail) x behind, cell)
      (elim (Bool-cases (same_inode x last)) [
        | inl linked ↦
            let (r, e, c) =
              collapse_loop-IsCollapsed run kept tail entries last (suc read) write (suc collapsed)
                w (omega arith) front (drop-suc read entries (run ++ tail) x behind) in
            rw linked
              (r, e, IsCollapsed-skip kept last x run tail entries read write collapsed r linked c)
        | inr apart ↦
            let rest = run ++ tail in
            let front_part = kept ++ last ∷ [] in
            let moved = moved_down front_part rest entries x read write below front behind in
            let (r, e, c) =
              collapse_loop-IsCollapsed run front_part tail moved x (suc read) (suc write) collapsed
                (omega (arith, length-append kept (last ∷ []))) (omega arith)
                (take-moved_down front_part rest entries x read write below front behind)
                (drop-moved_down front_part rest entries x read write below front behind) in
            rw apart (
              r,
              e,
              IsCollapsed-keep kept last x run tail entries read write collapsed r moved apart
                  (length-moved_down front_part rest entries x read write below front behind) c,
            )
      ])
