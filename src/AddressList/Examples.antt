-- ===== src/AddressList/Examples.antt =====
-- Ranges of IPv4 addresses, and what stands for their texts.
use chat2api_web_gateway.Strings.{chars, digits_value}
use chat2api_web_gateway.AddressList.{Platform, is_dotted}
use chat2api_web_gateway.AddressList.Match.{parse_ip, is_ip_allowed}
use chat2api_web_gateway.AddressList.Ranges.{covered_by, is_ip_allowed-covered}
use chat2api_web_gateway.Prelude.{
  ◌==◌, ◌===◌, if◌then◌else◌, length, any, String, ◌≡◌, refl, true, false, ◌||◌, none, some, List,
  [], ◌∷◌,
}

-- `Number` of an empty text is 0, as it is of the text "0".
abbrev platform : Platform
platform = record {
  is_ip = λ s. if is_dotted (chars s) then 4 else if s === "2001:db8::1" then 6 else 0;
  to_number = λ s. digits_value 0 (chars s);
  to_hex = λ n. "0";
  to_lower_case = λ s. s;
}

abbrev entries : List String
entries = "10.1.0.0/16" ∷ []

is_ip_allowed-covered_example : is_ip_allowed platform "10.1.2.3" entries ≡ (
    length entries == 0 || elim (parse_ip platform "10.1.2.3") [
      | none ↦ false
      | some candidate ↦ any (covered_by platform candidate) entries
    ])
is_ip_allowed-covered_example = is_ip_allowed-covered platform "10.1.2.3" entries

ranges :
    (is_ip_allowed platform "10.1.2.3" ("10.1.0.0/16" ∷ []) ≡ true)
    × (is_ip_allowed platform "10.2.2.3" ("10.1.0.0/16" ∷ []) ≡ false)
    × (is_ip_allowed platform "2001:db8::1" ("10.1.0.0/16" ∷ []) ≡ false)
unfolding is_ip_allowed digits_value
ranges = (refl, refl, refl)

long_address :
    parse_ip platform "[2001:db8::1]"
    ≡ some (record { value = 0x20010db8000000000000000000000001; bits = 128 })
unfolding parse_ip
long_address = refl

-- A slash without a number behind it is a prefix of no bits: the entry covers every address of its family.
empty_prefix : is_ip_allowed platform "203.0.113.9" ("10.1.2.3/" ∷ []) ≡ true
unfolding is_ip_allowed digits_value
empty_prefix = refl
