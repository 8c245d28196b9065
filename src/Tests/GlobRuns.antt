-- ===== src/Tests/GlobRuns.antt =====
-- A path with an escaped and an open metacharacter.
use bc_duplicate.Prelude.{◌≡◌, ◌↔◌, refl, true, false}
use bc_duplicate.Text.{codes}
use bc_duplicate.Glob.{HasOpen, contains_metacharacter, contains_metacharacter_iff}

escaped_only : contains_metacharacter false (codes "a\\*b") ≡ false
unfolding contains_metacharacter
escaped_only = refl

contains_metacharacter_iff_example :
    (contains_metacharacter false (codes "a\\*b?") ≡ true) ↔ HasOpen false (codes "a\\*b?")
contains_metacharacter_iff_example = contains_metacharacter_iff (codes "a\\*b?")
