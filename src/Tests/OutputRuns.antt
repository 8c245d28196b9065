-- ===== src/Tests/OutputRuns.antt =====
-- A path that is written as a JSON string, into a writer that is the list of its bytes.
use bc_duplicate.Prelude.{ℕ, ◌/◌, ◌%◌, ◌≡◌, refl, sym, List, [], ◌∷◌, ◌++◌, some}
use mathlib.Core.Option.{some-injective}
use bc_duplicate.Output.{WriterLibrary, hex_digit}
use bc_duplicate.Output.Json.{quote, write_escaped, write_escaped_byte, write_escaped_bytes}
use bc_duplicate.Output.Escape.{Reading, read_string, write_escaped-read_string}

abbrev four_digits : ℕ → List ℕ
four_digits n =
    hex_digit (n / 4096)
    ∷ hex_digit (n / 256 % 16)
    ∷ hex_digit (n / 16 % 16)
    ∷ hex_digit (n % 16)
    ∷ []

-- A list of bytes that takes whatever is written.
abbrev pub list_writer : WriterLibrary
list_writer = record {
  Writer = List ℕ;
  contents = λ w. w;
  decimal = λ n. n ∷ [];
  write_bytes = λ w b. some (w ++ b);
  write_char = λ w c. some (w ++ c ∷ []);
  write_decimal = λ w n. some (w ++ n ∷ []);
  write_hexadecimal_padded = λ w n width. some (w ++ four_digits n);
  write_bytes_adds = λ w b w' h. sym (some-injective _ _ h);
  write_char_adds = λ w c w' h. sym (some-injective _ _ h);
  write_decimal_adds = λ w n w' h. sym (some-injective _ _ h);
  write_hexadecimal_adds = λ w n w' small h. sym (some-injective _ _ h);
}

-- A path with a control character, a quote and a letter.
abbrev path : List ℕ
path = 1 ∷ 34 ∷ 65 ∷ []

abbrev written : List ℕ
written = 34 ∷ 92 ∷ 117 ∷ 48 ∷ 48 ∷ 48 ∷ 49 ∷ 92 ∷ 34 ∷ 65 ∷ 34 ∷ []

writes : write_escaped list_writer path [] ≡ some written
unfolding write_escaped write_escaped_byte write_escaped_bytes
writes = refl

write_escaped-read_string_example :
    (text : List ℕ) × (written ≡ quote ∷ text)
    × ((rest : List ℕ) → read_string Reading.plain (text ++ rest) ≡ some (path, rest))
write_escaped-read_string_example = write_escaped-read_string list_writer path [] written writes
