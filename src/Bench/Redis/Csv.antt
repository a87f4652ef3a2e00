-- ===== src/Bench/Redis/Csv.antt =====
-- workloads/redis/archive/utils.py: `parse_csv_output`. `parse_int` and `parse_float` are Python's
-- `int` and `float` of a text, `none` where they raise `ValueError`.
use schedcore.Prelude.{
  ℕ, String, Option, none, some, some-injective, Bool, true, false, List, [], ◌∷◌, map, length, ◌≡◌,
  refl, ◌∙◌, arith, All, contains, ◌==◌, string_eq, char_eq, nat_eq, if◌then◌else◌,
}
use schedcore.Prelude.Dict.{Dict, insert, has_key, has_key-insert, keys}
use schedcore.Prelude.Text.{rstrip}
use schedcore.Prelude.Split.{Unicode, split, strip, after_leading, has_part}

pub data Cell (F I : Type 0) : Type 0 where
  floating : F → Cell F I
  integer : I → Cell F I
  plain : String → Cell F I

-- `s.strip('"')`
unfoldable pub unquoted : String → String
unfolding rstrip after_leading
unquoted s = rstrip (λ c. c == "\"") (after_leading (λ c. c == "\"") s)

-- The fields of a line.
unfoldable pub fields : String → List String
unfolding unquoted split
fields line = map unquoted (split "\",\"" (unquoted line))

module _ (u : Unicode) {F I : Type 0} (parse_float : String → Option F)
    (parse_int : String → Option I) where
  abbrev float_or : String → Option F → Cell F I
  float_or value none = plain value
  float_or value (some x) = floating x

  abbrev int_or : String → Option I → Cell F I
  int_or value none = plain value
  int_or value (some n) = integer n

  unfoldable pub cell : String → Cell F I
  unfolding has_part
  cell value =
      if has_part "." value
      then float_or value (parse_float value)
      else int_or value (parse_int value)

  -- The loop over the headers; a header that comes again takes the later value.
  unfoldable pub row_from :
      List String → List String → Dict String (Cell F I) → Dict String (Cell F I)
  unfolding cell insert
  row_from (header ∷ headers) (value ∷ values) row =
      row_from headers values (insert header (cell value) row)
  row_from [] values row = row
  row_from (header ∷ headers) [] row = row

  abbrev kept :
      Bool
      → Bool
      → Dict String (Cell F I)
      → List (Dict String (Cell F I))
      → List (Dict String (Cell F I))
  kept blank fits row rest = if blank then rest else if fits then row ∷ rest else rest

  -- The row of a line that is not blank and has a value for each header.
  unfoldable pub rows_of : List String → List String → List (Dict String (Cell F I))
  unfolding row_from fields strip
  rows_of headers [] = []
  rows_of headers (line ∷ lines) =
      kept (strip u line == "") (length (fields line) == length headers)
        (row_from headers (fields line) []) (rows_of headers lines)

  abbrev of_lines : List String → Option (List (Dict String (Cell F I)))
  of_lines [] = none
  of_lines (header_line ∷ []) = none
  of_lines (header_line ∷ line ∷ lines) = some (rows_of (fields header_line) (line ∷ lines))

  unfoldable pub parse_csv_output : String → Option (List (Dict String (Cell F I)))
  unfolding rows_of fields split strip
  parse_csv_output csv_output = of_lines (split "\n" (strip u csv_output))

  has_key-row_from :
      (key : String) (headers values : List String) (row : Dict String (Cell F I))
      → length values ≡ length headers
      → has_key key (row_from headers values row)
        ≡ (if contains headers key then true else has_key key row)
  unfolding row_from
  has_key-row_from key [] values row h = refl
  has_key-row_from key (header ∷ headers) [] row h = absurd (omega arith)
  has_key-row_from key (header ∷ headers) (value ∷ values) row h =
      rw
        (
          has_key-row_from key headers values (insert header (cell value) row) (omega arith),
          has_key-insert key header (cell value) row,
        )
        (ground arith)

  -- The row has the headers as its keys.
  abbrev pub HasHeaders : List String → Dict String (Cell F I) → Type 0
  HasHeaders headers row = (key : String) → has_key key row ≡ contains headers key

  kept-HasHeaders :
      (headers : List String) (blank fits : Bool) (row : Dict String (Cell F I))
      (rest : List (Dict String (Cell F I)))
      → (fits ≡ true → HasHeaders headers row)
      → All (HasHeaders headers) rest
      → All (HasHeaders headers) (kept blank fits row rest)
  kept-HasHeaders headers true fits row rest holds all = all
  kept-HasHeaders headers false true row rest holds all = (holds refl, all)
  kept-HasHeaders headers false false row rest holds all = all

  row_from-HasHeaders :
      (headers values : List String)
      → (length values == length headers) ≡ true
      → HasHeaders headers (row_from headers values [])
  unfolding has_key keys
  row_from-HasHeaders headers values fits key =
      has_key-row_from key headers values [] (equal_nat (length values) (length headers) fits)
      ∙ no_other (contains headers key)
    where
      equal_nat : (m n : ℕ) → (m == n) ≡ true → m ≡ n
      equal_nat m n h = ground arith

      no_other : (b : Bool) → (if b then true else has_key {V = Cell F I} key []) ≡ b
      no_other b = ground arith

  rows_of-HasHeaders :
      (headers lines : List String) → All (HasHeaders headers) (rows_of headers lines)
  unfolding rows_of
  rows_of-HasHeaders headers [] = tt
  rows_of-HasHeaders headers (line ∷ lines) =
      kept-HasHeaders headers (strip u line == "") (length (fields line) == length headers)
        (row_from headers (fields line) []) (rows_of headers lines)
        (row_from-HasHeaders headers (fields line)) (rows_of-HasHeaders headers lines)

  abbrev pub first_line : List String → String
  first_line [] = ""
  first_line (line ∷ lines) = line

  of_lines-HasHeaders :
      (lines : List String) (rows : List (Dict String (Cell F I)))
      → of_lines lines ≡ some rows
      → All (HasHeaders (fields (first_line lines))) rows
  of_lines-HasHeaders [] rows h = absurd cc
  of_lines-HasHeaders (header_line ∷ []) rows h = absurd cc
  of_lines-HasHeaders (header_line ∷ line ∷ lines) rows h =
      let found = rows_of (fields header_line) (line ∷ lines) in
      rw (← some-injective found rows h) (rows_of-HasHeaders (fields header_line) (line ∷ lines))

  -- If a CSV text is parsed to rows, each row has a value for the headers of its first line and for nothing else.
  pub parse_csv_output-HasHeaders :
      (csv_output : String) (rows : List (Dict String (Cell F I)))
      → parse_csv_output csv_output ≡ some rows
      → All (HasHeaders (fields (first_line (split "\n" (strip u csv_output))))) rows
  unfolding parse_csv_output
  parse_csv_output-HasHeaders csv_output rows =
      of_lines-HasHeaders (split "\n" (strip u csv_output)) rows
