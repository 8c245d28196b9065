-- ===== src/Worker.antt =====
-- src/worker/: reading and hashing of the candidates. An errno is a number, 0 for none; a chunk of
-- a file is the list of its bytes. A consumer takes the chunks of a file: it changes its state and
-- says whether to go on.
pub mod Reader
pub mod Ring
pub mod Fast
pub mod Full
pub mod Kept
use bc_duplicate.Prelude.{ℕ, Bool, List}

abbrev pub eperm : ℕ
eperm = 1

abbrev pub eintr : ℕ
eintr = 4

abbrev pub eio : ℕ
eio = 5

abbrev pub ecanceled : ℕ
ecanceled = 125

abbrev pub Consumer {ℓ} : Type ℓ → Type ℓ
Consumer S = S → List ℕ → S × Bool

-- How the reading of one file ends.
pub record Consumed {ℓ} (S : Type ℓ) : Type ℓ where
  pub consumer : S
  pub success : Bool
  pub errno_value : ℕ
