-- ===== src/Http/Params.antt =====
-- internal/handlers: what handlers read from the path and the query of a request, with strconv and
-- net/url: numbers, and the address of a device.
use rpi_network_filter.Common.{
  ℕ, ◌+◌, ◌-◌, ◌*◌, ◌==◌, ltb, ◌||◌, Option, none, some, [], ◌∷◌, Text, codes, Result, ok, err,
  if◌then◌else◌,
}
use rpi_network_filter.Regexp.{within}
use rpi_network_filter.Strings.{is_nil, to_lower, trim_space}
use rpi_network_filter.Strings.Decimal.{format_int}
use rpi_network_filter.Validate.{valid_mac}
use rpi_network_filter.Http.{Handler, json_error}

-- The number that decimal digits stand for, behind those read already.
unfoldable pub parse_digits : ℕ → Text → Option ℕ
parse_digits n [] = some n
parse_digits n (c ∷ s) =
    let rest = parse_digits (n * 10 + (c - b'0')) s in if within b'0' b'9' c then rest else none

-- A number that ParseInt read: the row that has it as its id, 0 for a negative number, and its text.
-- Ids are from 1 up, so no row has the id of a negative number.
pub record RowId : Type 0 where
  pub row : ℕ
  pub text : Text

abbrev positive : ℕ → Option RowId
positive n =
    if ltb 9223372036854775807 n then none else some (record { row = n; text = format_int n })

abbrev negative : ℕ → Option RowId
negative n =
    if ltb 9223372036854775808 n
    then none
    else if n == 0
    then some (record { row = 0; text = codes "0" })
    else some (record { row = 0; text = b'-' ∷ format_int n })

abbrev digits_or : (ℕ → Option RowId) → Text → Option RowId
digits_or f s = if is_nil s then none else elim (parse_digits 0 s) [ none ↦ none | some n ↦ f n ]

-- ParseInt(s, 10, 64)
unfoldable pub parse_int : Text → Option RowId
unfolding parse_digits
parse_int [] = none
parse_int (c ∷ s) =
    if c == b'-'
    then digits_or negative s
    else if c == b'+'
    then digits_or positive s
    else digits_or positive (c ∷ s)

-- Atoi where the error is ignored: 0 for no number, the largest one for one that is larger. A
-- negative number is 0, as QueryPaginated takes both alike.
unfoldable pub atoi : Text → ℕ
unfolding parse_digits
atoi [] = 0
atoi (c ∷ s) =
    if c == b'-'
    then 0
    else let ds = if c == b'+' then s else c ∷ s in
      if is_nil ds then 0 else elim (parse_digits 0 ds) [
        | none ↦ 0
        | some n ↦ if ltb 9223372036854775807 n then 9223372036854775807 else n
      ]

-- The rest of a handler behind ParseInt of a parameter of the path.
unfoldable pub with_id : Text → Text → (RowId → Handler) → Handler
unfolding parse_int
with_id param error k s = elim (parse_int param) [
  | none ↦ (json_error 400 error, s)
  | some id ↦ k id s
]

abbrev hex_value : ℕ → Option ℕ
hex_value c =
    if within b'0' b'9' c
    then some (c - b'0')
    else if within b'a' b'f' c
    then some (c - b'a' + 10)
    else if within b'A' b'F' c
    then some (c - b'A' + 10)
    else none

-- PathUnescape
unfoldable pub path_unescape : Text → Option Text
path_unescape [] = some []
path_unescape (c ∷ []) = if c == b'%' then none else some (c ∷ [])
path_unescape (c ∷ d ∷ []) = if c == b'%' || d == b'%' then none else some (c ∷ d ∷ [])
path_unescape (c ∷ d ∷ e ∷ s) =
    let escaped = path_unescape s in
    let plain = path_unescape (d ∷ e ∷ s) in
    if c == b'%'
    then elim (hex_value d) [
      | none ↦ none
      | some high ↦ elim (hex_value e) [
        | none ↦ none
        | some low ↦ elim escaped [ none ↦ none | some t ↦ some ((high * 16 + low) ∷ t) ]
      ]
    ]
    else elim plain [ none ↦ none | some t ↦ some (c ∷ t) ]

-- extractMAC, given the parameter `mac`.
unfoldable pub extract_mac : Text → Result Text Text
unfolding path_unescape to_lower trim_space valid_mac
extract_mac raw = elim (path_unescape raw) [
  | none ↦ err (codes "invalid mac encoding")
  | some decoded ↦
      let mac = to_lower (trim_space decoded) in
      if valid_mac mac then ok mac else err (codes "invalid mac format (want aa:bb:cc:dd:ee:ff)")
]

-- The rest of a handler behind extractMAC.
unfoldable pub with_mac : Result Text Text → (Text → Handler) → Handler
with_mac (err error) k s = (json_error 400 error, s)
with_mac (ok mac) k s = k mac s
