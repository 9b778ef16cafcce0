-- ===== src/AddressList.antt =====
-- src/server/security/ip-allowlist.ts: addresses, ranges of them, and the list of an API key. `Number`, the
-- test of node:net, the text of a number to the base 16 and lower-casing are parameters.
pub mod Match
pub mod Ranges
mod Examples
use Prim.Native.Char.{Char, code as code_point}
use Prim.Native.Nat.{bit_or}
use mathlib.Core.Option
use mathlib.Core.Option.{get_or}
use chat2api_web_gateway.Strings.{Chars, chars, text_of, is_digit, starts}
use chat2api_web_gateway.Prelude.{
  leb, ◌==◌, if◌then◌else◌, length, filter, any, ℕ, zero, suc, ◌+◌, ◌-◌, ◌*◌, ◌/◌, ◌%◌, ◌^◌, String,
  Bool, not, ◌&&◌, Option, none, some, List, [], ◌∷◌, ◌++◌,
}

-- `to_number` gives a whole number that is not negative, and `none` for all that `Number` makes otherwise.
pub record Platform : Type 0 where
  pub is_ip : String → ℕ
  pub to_number : String → Option ℕ
  pub to_hex : ℕ → String
  pub to_lower_case : String → String

pub record ParsedIp : Type 0 where
  pub value : ℕ
  pub bits : ℕ

pub record Cidr : Type 0 where
  pub network : ℕ
  pub prefix : ℕ
  pub bits : ℕ

abbrev onto_part : Char → List Chars → List Chars
onto_part c [] = (c ∷ []) ∷ []
onto_part c (p ∷ ps) = (c ∷ p) ∷ ps

-- `split` at one character.
unfoldable pub split_at : Char → Chars → List Chars
split_at mark [] = [] ∷ []
split_at mark (c ∷ cs) =
    let rest = split_at mark cs in
    if code_point c == code_point mark then [] ∷ rest else onto_part c rest

-- `split('::')`; the number counts what is left of a mark that was found.
unfoldable pub split_at_gap : ℕ → Chars → List Chars
unfolding starts chars
split_at_gap skip [] = [] ∷ []
split_at_gap (suc skip) (c ∷ cs) = split_at_gap skip cs
split_at_gap zero (c ∷ cs) =
    let found = [] ∷ split_at_gap 1 cs in
    let kept = onto_part c (split_at_gap 0 cs) in
    if starts (chars "::") (c ∷ cs) then found else kept

abbrev pub is_empty : Chars → Bool
is_empty cs = length cs == 0

unfoldable pub join_bytes : Platform → ℕ → List Chars → ℕ
unfolding text_of
join_bytes p result [] = result
join_bytes p result (part ∷ parts) =
    join_bytes p (bit_or (result * 2 ^ 8) (get_or (p.to_number (text_of part)) 0)) parts

unfoldable pub parse_ipv4 : Platform → String → Option ParsedIp
unfolding split_at chars join_bytes
parse_ipv4 p value =
    if p.is_ip value == 4
    then some (record { value = join_bytes p 0 (split_at "." (chars value)); bits = 32 })
    else none

abbrev pub all : (Char → Bool) → Chars → Bool
all test cs = not (any (λ c. not (test c)) cs)

abbrev pub is_octet : Chars → Bool
is_octet cs = not (is_empty cs) && leb (length cs) 3 && all is_digit cs

-- `/^\d{1,3}(?:\.\d{1,3}){3}$/`.
unfoldable pub is_dotted : Chars → Bool
unfolding split_at is_digit
is_dotted cs =
    let parts = split_at "." cs in
    length parts == 4 && not (any (λ part. not (is_octet part)) parts)

-- The first place from which on a text is dotted: what stands before it and what follows.
unfoldable pub dotted_tail : Chars → Option (Chars × Chars)
unfolding is_dotted
dotted_tail [] = none
dotted_tail (c ∷ cs) =
    let later = Option.map (λ split. (c ∷ split.0, split.1)) (dotted_tail cs) in
    if is_dotted (c ∷ cs) then some ([], c ∷ cs) else later

-- An IPv4 address at the end becomes two groups.
unfoldable pub with_hex_tail : Platform → Chars → Option Chars
unfolding dotted_tail parse_ipv4 text_of chars
with_hex_tail p cs = elim (dotted_tail cs) [
  | none ↦ some cs
  | some (before, tail) ↦ elim (parse_ipv4 p (text_of tail)) [
    | none ↦ none
    | some ip ↦ some (
        before
        ++ chars (p.to_hex (ip.value / 2 ^ 16))
        ++ chars ":"
        ++ chars (p.to_hex (ip.value % 2 ^ 16)))
  ]
]

unfoldable pub groups_of : Chars → List Chars
unfolding split_at
groups_of half = filter (λ g. not (is_empty g)) (split_at ":" half)

unfoldable pub zeros : ℕ → List Chars
unfolding chars
zeros zero = []
zeros (suc n) = chars "0" ∷ zeros n

abbrev pub eight : List Chars → Option (List Chars)
eight groups = if length groups == 8 then some groups else none

-- The eight groups, where a gap stands for as many zeros as are missing.
unfoldable pub expand : List Chars → Option (List Chars)
unfolding groups_of zeros
expand [] = none
expand (left ∷ []) = eight (groups_of left)
expand (left ∷ right ∷ []) =
    let l = groups_of left in
    let r = groups_of right in
    if leb (length l + length r) 8 then eight (l ++ zeros (8 - length l - length r) ++ r) else none
expand (left ∷ right ∷ more ∷ rest) = none

unfoldable pub hex_digit : Char → Option ℕ
unfolding is_digit
hex_digit c =
    let n = code_point c in
    if is_digit c
    then some (n - b'0')
    else if leb b'a' n && leb n b'f'
    then some (n - b'a' + 10)
    else none

unfoldable pub hex_value : ℕ → Chars → Option ℕ
unfolding hex_digit
hex_value n [] = some n
hex_value n (c ∷ cs) = elim (hex_digit c) [ none ↦ none | some d ↦ hex_value (n * 16 + d) cs ]

-- `/^[0-9a-f]{1,4}$/`, and the number that such a group writes.
unfoldable pub group_value : Chars → Option ℕ
unfolding hex_value
group_value g = if not (is_empty g) && leb (length g) 4 then hex_value 0 g else none

unfoldable pub join_groups : ℕ → List Chars → Option ℕ
unfolding group_value
join_groups parsed [] = some parsed
join_groups parsed (g ∷ groups) = elim (group_value g) [
  | none ↦ none
  | some v ↦ join_groups (bit_or (parsed * 2 ^ 16) v) groups
]

abbrev pub first_part : List Chars → Chars
first_part [] = []
first_part (part ∷ parts) = part

abbrev pub and_then : {A B : Type 0} → Option A → (A → Option B) → Option B
and_then none f = none
and_then (some x) f = f x

unfoldable pub parse_ipv6 : Platform → String → Option ParsedIp
unfolding split_at chars text_of with_hex_tail split_at_gap expand join_groups
parse_ipv6 p value =
    let without_zone = text_of (first_part (split_at "%" (chars value))) in
    let groups =
      and_then (with_hex_tail p (chars (p.to_lower_case without_zone)))
        (λ normalized. expand (split_at_gap 0 normalized)) in
    if p.is_ip without_zone == 6
    then Option.map (λ v. record { value = v; bits = 128 }) (and_then groups (join_groups 0))
    else none
