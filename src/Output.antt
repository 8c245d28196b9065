-- ===== src/Output.antt =====
-- src/output/: the three ways to write the result. The buffered writer belongs to another library
-- and is a parameter; `none` is a write that failed. A C string is the list of its bytes.
pub mod Simple
pub mod Json
pub mod Escape
pub mod Groups
use bc_duplicate.Prelude.{
  ℕ, ◌+◌, ◌*◌, ◌/◌, ◌%◌, ◌<◌, ◌≡◌, List, [], ◌∷◌, ◌++◌, Option, none, some, Bool, ltb,
  if◌then◌else◌,
}

-- The digit of a value below 16.
abbrev pub hex_digit : ℕ → ℕ
hex_digit d = if ltb d 10 then 48 + d else 87 + d

-- bc_core_writer_t and its calls. `decimal` is the text that the library writes for a number.
pub record WriterLibrary : Type 1 where
  pub Writer : Type 0
  pub contents : Writer → List ℕ
  pub decimal : ℕ → List ℕ
  pub write_bytes : Writer → List ℕ → Option Writer
  pub write_char : Writer → ℕ → Option Writer
  pub write_decimal : Writer → ℕ → Option Writer
  pub write_hexadecimal_padded : Writer → ℕ → ℕ → Option Writer
  pub write_bytes_adds :
      (w : Writer) (b : List ℕ) (w' : Writer)
      → write_bytes w b ≡ some w'
      → contents w' ≡ contents w ++ b
  pub write_char_adds :
      (w : Writer) (c : ℕ) (w' : Writer)
      → write_char w c ≡ some w'
      → contents w' ≡ contents w ++ c ∷ []
  pub write_decimal_adds :
      (w : Writer) (n : ℕ) (w' : Writer)
      → write_decimal w n ≡ some w'
      → contents w' ≡ contents w ++ decimal n
  -- Four digits, for a number that has no more.
  pub write_hexadecimal_adds :
      (w : Writer) (n : ℕ) (w' : Writer)
      → n < 65536
      → write_hexadecimal_padded w n 4 ≡ some w'
      → contents w'
        ≡ contents w
          ++ hex_digit (n / 4096)
            ∷ hex_digit (n / 256 % 16)
            ∷ hex_digit (n / 16 % 16)
            ∷ hex_digit (n % 16)
            ∷ []
