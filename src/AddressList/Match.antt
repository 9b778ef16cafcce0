-- ===== src/AddressList/Match.antt =====
-- Ranges of addresses and the list of a key: parseIp, parseCidr, isValidIpOrCidr and isIpAllowed of
-- src/server/security/ip-allowlist.ts.
use Prim.Native.Char.{Char, code as code_point}
use chat2api_web_gateway.Strings.{Chars, chars, text_of, trim}
use chat2api_web_gateway.AddressList.{
  Platform, ParsedIp, Cidr, split_at, is_empty, parse_ipv4, parse_ipv6,
}
use chat2api_web_gateway.Prelude.{
  leb, ◌==◌, if◌then◌else◌, length, any, ℕ, ◌-◌, ◌*◌, ◌/◌, ◌^◌, String, Bool, true, false, ◌&&◌,
  Option, none, some, List, [], ◌∷◌,
}

abbrev is_mark : Char → Char → Bool
is_mark mark c = code_point c == code_point mark

abbrev without_first : Char → Chars → Chars
without_first mark [] = []
without_first mark (c ∷ cs) = if is_mark mark c then cs else c ∷ cs

-- The last character goes, if it is the mark.
unfoldable pub without_last : Char → Chars → Chars
without_last mark [] = []
without_last mark (c ∷ []) = if is_mark mark c then [] else c ∷ []
without_last mark (c ∷ d ∷ cs) = c ∷ without_last mark (d ∷ cs)

unfoldable pub parse_ip : Platform → String → Option ParsedIp
unfolding trim chars text_of without_last parse_ipv4 parse_ipv6
parse_ip p value =
    let normalized = text_of (without_last "]" (without_first "[" (chars (trim value)))) in
    elim (parse_ipv4 p normalized) [ some ip ↦ some ip | none ↦ parse_ipv6 p normalized ]

-- `shift === 0n ? value : (value >> shift) << shift`.
unfoldable pub network_of : ℕ → ℕ → ℕ
network_of value shift = if shift == 0 then value else value / 2 ^ shift * 2 ^ shift

-- The prefix that is written, or all bits where there is no slash.
unfoldable pub prefix_of : Platform → List Chars → ParsedIp → Option ℕ
unfolding text_of
prefix_of p [] ip = some ip.bits
prefix_of p (written ∷ []) ip = p.to_number (text_of written)
prefix_of p (written ∷ extra ∷ rest) ip = none

unfoldable pub cidr_of : ParsedIp → ℕ → Option Cidr
unfolding network_of
cidr_of ip prefix =
    if leb prefix ip.bits
    then some (record {
      network = network_of ip.value (ip.bits - prefix);
      prefix = prefix;
      bits = ip.bits;
    })
    else none

abbrev pub range_of : Platform → List Chars → Option ParsedIp → Option Cidr
range_of p written none = none
range_of p written (some ip) = elim (prefix_of p written ip) [ none ↦ none | some n ↦ cidr_of ip n ]

unfoldable pub parse_cidr : Platform → String → Option Cidr
unfolding trim chars text_of split_at parse_ip prefix_of cidr_of
parse_cidr p value = elim (split_at "/" (chars (trim value))) [
  | [] ↦ none
  | address ∷ written ↦
      if is_empty address then none else range_of p written (parse_ip p (text_of address))
]

unfoldable pub is_valid_ip_or_cidr : Platform → String → Bool
unfolding parse_cidr
is_valid_ip_or_cidr p value = elim (parse_cidr p value) [ none ↦ false | some cidr ↦ true ]

unfoldable pub is_in_cidr : ParsedIp → Cidr → Bool
unfolding network_of
is_in_cidr candidate cidr =
    cidr.bits == candidate.bits
    && network_of candidate.value (candidate.bits - cidr.prefix) == cidr.network

-- The test of one entry of the list.
unfoldable pub admits : Platform → ParsedIp → String → Bool
unfolding parse_cidr is_in_cidr
admits p candidate entry = elim (parse_cidr p entry) [
  | none ↦ false
  | some cidr ↦ is_in_cidr candidate cidr
]

unfoldable pub is_ip_allowed : Platform → String → List String → Bool
unfolding parse_ip admits
is_ip_allowed p ip allowed_cidrs =
    if length allowed_cidrs == 0 then true else elim (parse_ip p ip) [
      | none ↦ false
      | some candidate ↦ any (admits p candidate) allowed_cidrs
    ]
