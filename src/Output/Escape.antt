-- ===== src/Output/Escape.antt =====
-- A path that was written as a JSON string is read back by a reader of JSON strings.
use bc_duplicate.Prelude.{
  ℕ, zero, suc, ◌+◌, ◌-◌, ◌*◌, ◌/◌, ◌%◌, ◌<◌, ◌≡◌, refl, sym, ap, ◌∙◌, true, false, Bool-cases, inl,
  inr, List, [], ◌∷◌, ◌++◌, Option, none, some, arith, ltb, leb, ◌==◌, if◌then◌else◌,
}
use mathlib.Core.Option.{some-injective}
use mathlib.Core.List.{append_assoc, append-nil}
use bc_duplicate.Chain.{◌>>=◌, >>=-eq-some}
use bc_duplicate.Text.{codes}
use bc_duplicate.Output.{WriterLibrary, hex_digit}
use bc_duplicate.Output.Json.{
  quote, backslash, write_escaped_byte, write_escaped_bytes, write_escaped,
}

-- Where a reader of a JSON string stands: between characters, behind a backslash, or with `left + 1`
-- hexadecimal digits to come and the value so far.
pub data Reading : Type 0 where
  plain : Reading
  escape : Reading
  digits : (left value : ℕ) → Reading

abbrev pub digit_value : ℕ → Option ℕ
digit_value c =
    if leb 48 c
    then (if leb c 57
        then some (c - 48)
        else if leb 97 c
        then (if leb c 102 then some (c - 87) else none)
        else none)
    else none

-- The character that a letter behind a backslash stands for.
abbrev pub simple_escape : ℕ → Option ℕ
simple_escape c =
    if c == 34
    then some 34
    else if c == 92
    then some 92
    else if c == 47
    then some 47
    else if c == 98
    then some 8
    else if c == 102
    then some 12
    else if c == 110
    then some 10
    else if c == 114
    then some 13
    else if c == 116
    then some 9
    else none

abbrev pub with_byte : ℕ → Option (List ℕ × List ℕ) → Option (List ℕ × List ℕ)
with_byte b none = none
with_byte b (some (bytes, rest)) = some (b ∷ bytes, rest)

-- The bytes of a JSON string up to its closing quote, and what stands behind it. A numeric escape
-- is read if it stands for a character of one byte.
unfoldable pub read_string : Reading → List ℕ → Option (List ℕ × List ℕ)
read_string r [] = none
read_string Reading.plain (c ∷ cs) = elim (c == quote) [
  | true ↦ some ([], cs)
  | false ↦ elim (c == backslash) [
    | true ↦ read_string Reading.escape cs
    | false ↦ elim (ltb c 32) [ true ↦ none | false ↦ with_byte c (read_string Reading.plain cs) ]
  ]
]
read_string Reading.escape (c ∷ cs) = elim (c == 117) [
  | true ↦ read_string (Reading.digits 3 0) cs
  | false ↦ elim (simple_escape c) [
    | none ↦ none
    | some b ↦ with_byte b (read_string Reading.plain cs)
  ]
]
read_string (Reading.digits zero v) (c ∷ cs) = elim (digit_value c) [
  | none ↦ none
  | some d ↦ elim (ltb (v * 16 + d) 128) [
    | true ↦ with_byte (v * 16 + d) (read_string Reading.plain cs)
    | false ↦ none
  ]
]
read_string (Reading.digits (suc left) v) (c ∷ cs) = elim (digit_value c) [
  | none ↦ none
  | some d ↦ read_string (Reading.digits left (v * 16 + d)) cs
]

-- A text that a reader takes as the byte `b` and goes on.
abbrev Denotes : ℕ → List ℕ → Type 0
Denotes b text =
    (rest : List ℕ)
    → read_string Reading.plain (text ++ rest) ≡ with_byte b (read_string Reading.plain rest)

short_escape :
    (b c : ℕ) → (c == 117) ≡ false → simple_escape c ≡ some b → Denotes b (backslash ∷ c ∷ [])
unfolding read_string
short_escape b c other h rest = rw (read_string, other, h) refl

itself :
    (b : ℕ)
    → (b == quote) ≡ false
    → (b == backslash) ≡ false
    → ltb b 32 ≡ false
    → Denotes b (b ∷ [])
unfolding read_string
itself b h1 h2 h3 rest = rw (read_string, h1, h2, h3) refl

digit_value-hex_digit : (d : ℕ) → d < 16 → digit_value (hex_digit d) ≡ some d
digit_value-hex_digit d h = ground (arith, h)

number_value :
    (b : ℕ)
    → b < 65536
    → (((0 * 16 + b / 4096) * 16 + b / 256 % 16) * 16 + b / 16 % 16) * 16 + b % 16 ≡ b
number_value b h = omega arith

numeric_escape :
    (b : ℕ)
    → b < 128
    → Denotes b (
        backslash
        ∷ 117
        ∷ hex_digit (b / 4096)
        ∷ hex_digit (b / 256 % 16)
        ∷ hex_digit (b / 16 % 16)
        ∷ hex_digit (b % 16)
        ∷ [])
unfolding read_string
numeric_escape b h rest =
    let fits : ltb b 128 ≡ true = ground (arith, h) in
    rw
      (
        read_string,
        digit_value-hex_digit (b / 4096) (omega arith),
        digit_value-hex_digit (b / 256 % 16) (omega arith),
        digit_value-hex_digit (b / 16 % 16) (omega arith),
        digit_value-hex_digit (b % 16) (omega arith),
        number_value b (omega arith),
        fits,
      )
      (ap (λ n. with_byte n (read_string Reading.plain rest)) (number_value b (omega arith)))

module _ (lib : WriterLibrary) where
  -- A write that added the text of a byte.
  abbrev Wrote : ℕ → lib.Writer → lib.Writer → Type 0
  Wrote b w w' = (text : List ℕ) × (lib.contents w' ≡ lib.contents w ++ text) × Denotes b text

  Wrote-short :
      (b c : ℕ) (w w' : lib.Writer)
      → (c == 117) ≡ false
      → simple_escape c ≡ some b
      → lib.write_bytes w (backslash ∷ c ∷ []) ≡ some w'
      → Wrote b w w'
  Wrote-short b c w w' other e h =
      (backslash ∷ c ∷ [], lib.write_bytes_adds w _ w' h, short_escape b c other e)

  Wrote-number :
      (b : ℕ) (w w' : lib.Writer)
      → b < 32
      → (do w1 ← lib.write_bytes w (backslash ∷ codes "u"); lib.write_hexadecimal_padded w1 b 4)
        ≡ some w'
      → Wrote b w w'
  Wrote-number b w w' small h =
      let (w1, e1, e2) = >>=-eq-some (lib.write_bytes w (backslash ∷ codes "u")) _ h in
      let first = lib.write_bytes_adds w _ w1 e1 in
      let second = lib.write_hexadecimal_adds w1 b w' (omega (arith, small)) e2 in
      let four =
        hex_digit (b / 4096)
        ∷ hex_digit (b / 256 % 16)
        ∷ hex_digit (b / 16 % 16)
        ∷ hex_digit (b % 16)
        ∷ [] in
      (
        backslash ∷ 117 ∷ four,
        second
            ∙ ap (λ l. l ++ four) first
            ∙ append_assoc (lib.contents w) (backslash ∷ 117 ∷ []) four,
        numeric_escape b (omega (arith, small)),
      )

  write_escaped_byte-Wrote :
      (b : ℕ) (w w' : lib.Writer) → write_escaped_byte lib b w ≡ some w' → Wrote b w w'
  unfolding write_escaped_byte
  write_escaped_byte-Wrote b w w' = elim (Bool-cases (b == quote)) [
    | inl e ↦ rw e (Wrote-short b 34 w w' refl (ap some (ground arith)))
    | inr n1 ↦ rw n1 (elim (Bool-cases (b == backslash)) [
      | inl e ↦ rw e (Wrote-short b 92 w w' refl (ap some (ground arith)))
      | inr n2 ↦ rw n2 (elim (Bool-cases (b == 8)) [
        | inl e ↦ rw e (Wrote-short b 98 w w' refl (ap some (ground arith)))
        | inr n3 ↦ rw n3 (elim (Bool-cases (b == 12)) [
          | inl e ↦ rw e (Wrote-short b 102 w w' refl (ap some (ground arith)))
          | inr n4 ↦ rw n4 (elim (Bool-cases (b == 10)) [
            | inl e ↦ rw e (Wrote-short b 110 w w' refl (ap some (ground arith)))
            | inr n5 ↦ rw n5 (elim (Bool-cases (b == 13)) [
              | inl e ↦ rw e (Wrote-short b 114 w w' refl (ap some (ground arith)))
              | inr n6 ↦ rw n6 (elim (Bool-cases (b == 9)) [
                | inl e ↦ rw e (Wrote-short b 116 w w' refl (ap some (ground arith)))
                | inr n7 ↦ rw n7 (elim (Bool-cases (ltb b 32)) [
                  | inl e ↦ rw e (Wrote-number b w w' (ground arith))
                  | inr n8 ↦ rw n8 (λ h. (b ∷ [], lib.write_char_adds w b w' h, itself b n1 n2 n8))
                ])
              ])
            ])
          ])
        ])
      ])
    ])
  ]

  -- What a reader takes as the bytes of a path, whatever follows.
  write_escaped_bytes-text :
      (bytes : List ℕ) (w w' : lib.Writer)
      → write_escaped_bytes lib bytes w ≡ some w'
      → (text : List ℕ) × (lib.contents w' ≡ lib.contents w ++ text)
        × ((rest : List ℕ) → read_string Reading.plain (text ++ quote ∷ rest) ≡ some (bytes, rest))
  unfolding write_escaped_bytes read_string
  write_escaped_bytes-text [] w w' h = (
    [],
    ap lib.contents (sym (some-injective _ _ h)) ∙ sym (append-nil (lib.contents w)),
    λ rest. refl,
  )
  write_escaped_bytes-text (b ∷ bytes) w w' h =
      let (w1, e, k) = >>=-eq-some (write_escaped_byte lib b w) _ h in
      let (text1, adds1, denotes) = write_escaped_byte-Wrote b w w1 e in
      let (text2, adds2, reads) = write_escaped_bytes-text bytes w1 w' k in
      (
        text1 ++ text2,
        adds2 ∙ ap (λ l. l ++ text2) adds1 ∙ append_assoc (lib.contents w) text1 text2,
        λ rest.
            ap (read_string Reading.plain) (append_assoc text1 text2 (quote ∷ rest))
            ∙ denotes (text2 ++ quote ∷ rest)
            ∙ ap (with_byte b) (reads rest),
      )

  -- A path that was written as a JSON string is one quote and a text that the reader takes, up
  -- to its closing quote, as the bytes of the path, whatever is written behind it.
  pub write_escaped-read_string :
      (path : List ℕ) (w w' : lib.Writer)
      → write_escaped lib path w ≡ some w'
      → (text : List ℕ) × (lib.contents w' ≡ lib.contents w ++ quote ∷ text)
        × ((rest : List ℕ) → read_string Reading.plain (text ++ rest) ≡ some (path, rest))
  unfolding write_escaped
  write_escaped-read_string path w w' h =
      let (w1, e1, k1) = >>=-eq-some (lib.write_char w quote) _ h in
      let (w2, e2, e3) = >>=-eq-some (write_escaped_bytes lib path w1) _ k1 in
      let first = lib.write_char_adds w quote w1 e1 in
      let (text, second, reads) = write_escaped_bytes-text path w1 w2 e2 in
      let third = lib.write_char_adds w2 quote w' e3 in
      let close = quote ∷ [] in
      (
        text ++ close,
        third
            ∙ ap (λ l. l ++ close) second
            ∙ ap (λ l. (l ++ text) ++ close) first
            ∙ append_assoc (lib.contents w ++ close) text close
            ∙ append_assoc (lib.contents w) close (text ++ close),
        λ rest. ap (read_string Reading.plain) (append_assoc text close rest) ∙ reads rest,
      )
