-- ===== src/Library/Json.antt =====
-- library/shared/json.c. The text is in memory, and pointers are addresses; loops are on fuel.
use fern_night.Prelude.{
  ℕ, zero, suc, ◌+◌, ◌-◌, Bool, true, false, not, ◌&&◌, ◌||◌, Option, none, some, ltb, ◌==◌,
  if◌then◌else◌,
}
use fern_night.Prelude.Machine.{sub64}
use fern_night.Library.Text.{lib_string_length, lib_string_to_integer}

-- `STATIC_ASCII_QUOTATION`, `STATIC_ASCII_BACKSLASH`, `STATIC_ASCII_COMMA`,
-- `STATIC_ASCII_BRACLET_OPEN`, `STATIC_ASCII_BRACLET_CLOSE`
abbrev pub quotation : ℕ
quotation = 0x22

abbrev pub backslash : ℕ
backslash = 0x5C

abbrev pub comma : ℕ
comma = 0x2C

abbrev pub braclet_open : ℕ
braclet_open = 0x7B

abbrev pub braclet_close : ℕ
braclet_close = 0x7D

-- The variables of `lib_json_cohesion`.
pub record Cohesion : Type 0 where
  pub memory : ℕ → ℕ
  pub formatted : ℕ
  pub json : ℕ
  pub length : ℕ

-- `*(formatted++) = *json; length++;`
abbrev pub keep : Cohesion → Cohesion
keep c = record c {
  memory = λ x. if x == c.formatted then c.memory c.json else c.memory x;
  formatted = c.formatted + 1;
  length = c.length + 1;
}

abbrev pub advance : Cohesion → Cohesion
advance c = record c { json = c.json + 1 }

-- "look for end quote"
pub quoted : ℕ → ℕ → Cohesion → Option Cohesion
quoted zero previous c = none
quoted (suc fuel) previous c =
    let character = c.memory c.json in
    let rest = quoted fuel character (advance (keep c)) in
    if not (character == quotation) || (previous == backslash) then rest else some c

-- `do ... while( *(json++) )`
pub cohere : ℕ → Cohesion → Option Cohesion
cohere zero c = none
cohere (suc fuel) c =
    let character = c.memory c.json in
    let next : Option Cohesion =
      if character == quotation
      then elim (quoted fuel (c.memory (c.json - 1)) (advance (keep c))) [
        | none ↦ none
        | some c' ↦ some (keep c')
      ]
      else some (if ltb 0x20 character && ltb character 0x7F then keep c else c) in
    elim next [
      | none ↦ none
      | some c' ↦
          let rest = cohere fuel (advance c') in
          if c'.memory c'.json == 0 then some (advance c') else rest
    ]

-- The new length, and the memory with the shorter text.
pub lib_json_cohesion : ℕ → (ℕ → ℕ) → ℕ → Option (ℕ × (ℕ → ℕ))
lib_json_cohesion fuel memory json =
    elim (cohere fuel (record { memory = memory; formatted = json; json = json; length = 0 })) [
      | none ↦ none
      | some c ↦ some (c.length, λ x. if x == c.formatted then 0 else c.memory x)
    ]

-- `LIB_JSON_TYPE_*`
pub data JsonType : Type 0 where
  unknown : JsonType
  string : JsonType
  number : JsonType
  object : JsonType
  boolean : JsonType
  null : JsonType

-- `struct LIB_JSON_STRUCTURE`
pub record Json : Type 0 where
  pub kind : JsonType
  pub key : ℕ
  pub value : ℕ
  pub length : ℕ
  pub next : ℕ

-- `while( *(++string) != '"' || *(string++ - 1) == '\\' )`: the quotation mark behind the key.
pub end_of_key : ℕ → (ℕ → ℕ) → ℕ → Option ℕ
end_of_key zero memory at = none
end_of_key (suc fuel) memory at =
    let next = at + 1 in
    let same = end_of_key fuel memory next in
    let skipped = end_of_key fuel memory (next + 1) in
    if not (memory next == quotation)
    then same
    else if memory (next - 1) == backslash
    then skipped
    else some (next + 1)

-- `while( o )`: the length up to the bracket that closes the object.
pub end_of_object : ℕ → (ℕ → ℕ) → ℕ → ℕ → ℕ → Option ℕ
end_of_object zero memory at o length = if o == 0 then some length else none
end_of_object (suc fuel) memory at o length =
    let character = memory (at + (length + 1)) in
    let opened = if character == braclet_open then o + 1 else o in
    let closed = if character == braclet_close then sub64 opened 1 else opened in
    let rest = end_of_object fuel memory at closed (length + 1) in
    if o == 0 then some length else rest

-- The length up to the quotation mark that ends a string.
pub end_of_string : ℕ → (ℕ → ℕ) → ℕ → ℕ → Option ℕ
end_of_string zero memory at length = none
end_of_string (suc fuel) memory at length =
    let next = length + 1 in
    let rest = end_of_string fuel memory at next in
    if not (memory (at + next) == quotation) || (memory (at + next - 1) == backslash)
    then rest
    else some next

-- The key behind a value of another kind, or EMPTY.
pub end_of_other : ℕ → (ℕ → ℕ) → ℕ → Option ℕ
end_of_other zero memory at = none
end_of_other (suc fuel) memory at =
    let rest = end_of_other fuel memory (at + 1) in
    let character = memory at in
    if (character == 0) || (character == comma)
    then some (at + 1)
    else if character == braclet_close
    then some 0
    else rest

abbrev pub next_key : (ℕ → ℕ) → ℕ → ℕ → ℕ
next_key memory at length = if memory (at + length) == braclet_close then 0 else at + length + 1

-- `c` or its capital.
abbrev pub is_letter : ℕ → ℕ → Bool
is_letter c character = (character == c) || (character == c - 0x20)

-- "default:". `*string - '0' < 10` is a signed comparison.
pub parse_other : ℕ → (ℕ → ℕ) → Json → ℕ → Option Json
parse_other fuel memory json at =
    let character = memory at in
    let numbered : Option Json = elim (lib_string_to_integer fuel (λ x. memory (at + x)) 10) [
      | none ↦ none
      | some v ↦ some (record json { kind = number; value = v })
    ] in
    let typed : Option Json =
      if is_letter 0x6E character
      then some (record json { kind = null })
      else if is_letter 0x74 character
      then some (record json { kind = boolean; value = 1 })
      else if is_letter 0x66 character
      then some (record json { kind = boolean; value = 0 })
      else if (character == 0x2D) || ltb character 0x3A
      then numbered
      else some (record json { kind = unknown }) in
    elim typed [
      | none ↦ none
      | some json' ↦ elim (end_of_other fuel memory at) [
        | none ↦ none
        | some next ↦ some (record json' { next = next })
      ]
    ]

-- `at` is where the value begins.
pub parse_value : ℕ → (ℕ → ℕ) → Json → ℕ → Option Json
parse_value fuel memory json at =
    if memory at == braclet_open
    then elim (end_of_object fuel memory at 1 0) [
      | none ↦ none
      | some length ↦ some (record json {
        kind = object;
        length = length + 1;
        next = next_key memory at (length + 1);
      })
    ]
    else if memory at == quotation
    then elim (end_of_string fuel memory at 0) [
      | none ↦ none
      | some length ↦ some (record json {
        kind = string;
        value = at + 1;
        length = length + 1 - 2;
        next = next_key memory at (length + 1);
      })
    ]
    else parse_other fuel memory json at

pub lib_json_parse : ℕ → (ℕ → ℕ) → Json → ℕ → Option Json
lib_json_parse fuel memory json at = elim (end_of_key fuel memory at) [
  | none ↦ none
  | some colon ↦ parse_value fuel memory (record json { value = colon + 1; length = 0 }) (colon + 1)
]

-- The characters of the key against those of the name. The result is what is left of `length` and
-- the character that ends the key, or none where they differ.
pub same_key : ℕ → (ℕ → ℕ) → ℕ → ℕ → ℕ → Option (Option ℕ)
same_key zero memory key name length = none
same_key (suc fuel) memory key name length =
    let rest = same_key fuel memory (key + 1) (name + 1) (sub64 length 1) in
    if memory key == quotation
    then some (some length)
    else if memory key == memory name
    then rest
    else some none

pub lib_json_key : ℕ → (ℕ → ℕ) → Json → ℕ → Option Bool
lib_json_key fuel memory json name = elim (lib_string_length fuel (λ x. memory (name + x))) [
  | none ↦ none
  | some length ↦ elim (same_key fuel memory (json.key + 1) name length) [
    | none ↦ none
    | some none ↦ some false
    | some (some left) ↦ some (left == 0)
  ]
]

pub lib_json_next : ℕ → (ℕ → ℕ) → Json → Option (Bool × Json)
lib_json_next fuel memory json =
    if json.next == 0
    then some (false, json)
    else elim (lib_json_parse fuel memory (record json { key = json.next }) json.next) [
      | none ↦ none
      | some json' ↦ some (true, json')
    ]

abbrev pub empty_json : Json
empty_json = record { kind = unknown; key = 0; value = 0; length = 0; next = 0 }

pub lib_json : ℕ → (ℕ → ℕ) → ℕ → Option Json
lib_json fuel memory at =
    if memory at == braclet_open
    then lib_json_parse fuel memory (record empty_json { key = at + 1 }) (at + 1)
    else some empty_json
