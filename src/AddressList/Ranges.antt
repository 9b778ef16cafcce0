-- ===== src/AddressList/Ranges.antt =====
-- The addresses that an entry of the list admits (ip-allowlist.ts, isIpAllowed).
use mathlib.Core.Logic.{inl, inr}
use native.Mathlib.Nat.{
  div-mul-le_self, div-add-mod', mod-lt, div-eq_of_lt-le, div-one, add-mul, one-mul, one-le-pow,
  mul-one,
}
use chat2api_web_gateway.AddressList.Match.{
  parse_ip, network_of, prefix_of, cidr_of, range_of, parse_cidr, is_in_cidr, admits, is_ip_allowed,
}
use chat2api_web_gateway.AddressList.{Platform, ParsedIp, Cidr, split_at, is_empty}
use chat2api_web_gateway.Strings.{Chars, chars, text_of, trim}
use chat2api_web_gateway.Prelude.{
  ltb, leb, ◌==◌, if◌then◌else◌, Bool-cases, Option-cases, if_false, length, any, ℕ, zero, suc, ◌+◌,
  ◌-◌, ◌*◌, ◌/◌, ◌^◌, ◌≤◌, ◌<◌, String, ◌≡◌, refl, sym, ap, ◌∙◌, Bool, true, false, ◌&&◌, ◌||◌,
  Option, none, some, List, [], ◌∷◌, arith,
}

-- The first number of the block of `d` numbers that `v` is in.
abbrev block : ℕ → ℕ → ℕ
block d v = v / d * d

lt-block : (v d : ℕ) → 0 < d → v < block d v + d
lt-block v d pos = omega (arith, div-add-mod' v d, mod-lt v pos)

block_of_within : (v k d : ℕ) → 0 < d → k * d ≤ v → v < k * d + d → block d v ≡ k * d
block_of_within v k d pos low high =
    let next : k * d + d ≡ (k + 1) * d = omega (arith, add-mul k 1 d, one-mul d) in
    ap (λ q. q * d) (div-eq_of_lt-le d low (omega (arith, high, next)))

network_of-block : (v s : ℕ) → network_of v s ≡ block (2 ^ s) v
unfolding network_of
network_of-block v zero = omega (arith, div-one v, mul-one v)
network_of-block v (suc s) =
    if_false (λ q. q ≡ block (2 ^ suc s) v) v (block (2 ^ suc s) v) (suc s == 0) (ground arith) refl

pow_pos : (s : ℕ) → 0 < 2 ^ s
pow_pos s = omega (arith, one-le-pow s 2 (omega arith))

block-eq :
    (v a d : ℕ) → 0 < d → (block d v == block d a) ≡ (leb (block d a) v && ltb v (block d a + d))
block-eq v a d pos = elim (Bool-cases (leb (block d a) v && ltb v (block d a + d))) [
  | inl within ↦
      let low : block d a ≤ v = ground (arith, within) in
      let high : v < block d a + d = ground (arith, within) in
      let same : block d v ≡ block d a = block_of_within v (a / d) d pos low high in
      ground (arith, within, same)
  | inr outside ↦
      let low : block d v ≤ v = div-mul-le_self v d in
      let high : v < block d v + d = lt-block v d pos in
      elim (Bool-cases (block d v == block d a)) [
        | inl same ↦ absurd (ground (arith, outside, low, high, same))
        | inr other ↦ other ∙ sym outside
      ]
]

-- The addresses that share a network are the block that begins with it.
network_of-eq :
    (v a s : ℕ)
    → (network_of v s == network_of a s)
      ≡ (leb (network_of a s) v && ltb v (network_of a s + 2 ^ s))
network_of-eq v a s =
    rw (network_of-block v s, network_of-block a s) (block-eq v a (2 ^ s) (pow_pos s))

-- A range that a text was read as.
cidr_of-network :
    (ip : ParsedIp) (prefix : ℕ) (cidr : Cidr)
    → cidr_of ip prefix ≡ some cidr
    → cidr.network ≡ network_of ip.value (cidr.bits - cidr.prefix)
unfolding cidr_of
cidr_of-network ip prefix cidr h = ground (arith, h)

range_of-network :
    (p : Platform) (written : List Chars) (ip : Option ParsedIp) (cidr : Cidr)
    → range_of p written ip ≡ some cidr
    → (a : ℕ) × (cidr.network ≡ network_of a (cidr.bits - cidr.prefix))
range_of-network p written none cidr h = absurd (ground (arith, h))
range_of-network p written (some ip) cidr h = elim (Option-cases (prefix_of p written ip)) [
  | inl unread ↦ absurd (ground (arith, h, unread))
  | inr (n, read) ↦ (ip.value, cidr_of-network ip n cidr (ground (arith, h, read)))
]

parse_cidr-network :
    (p : Platform) (entry : String) (cidr : Cidr)
    → parse_cidr p entry ≡ some cidr
    → (a : ℕ) × (cidr.network ≡ network_of a (cidr.bits - cidr.prefix))
unfolding parse_cidr
parse_cidr-network p entry cidr h = of_parts (split_at "/" (chars (trim entry))) h
  where
    of_parts :
        (parts : List Chars)
        → (elim parts [
          | [] ↦ none
          | address ∷ written ↦
              if is_empty address then none else range_of p written (parse_ip p (text_of address))
        ])
          ≡ some cidr
        → (a : ℕ) × (cidr.network ≡ network_of a (cidr.bits - cidr.prefix))
    of_parts [] e = absurd (ground (arith, e))
    of_parts (address ∷ written) e = elim (Bool-cases (is_empty address)) [
      | inl nothing ↦ absurd (ground (arith, e, nothing))
      | inr something ↦
          range_of-network p written (parse_ip p (text_of address)) cidr
            (ground (arith, e, something))
    ]

-- What an entry stands for: the addresses of its family from the first of its network on, as many as the
-- bits behind its prefix can count.
abbrev pub covers : Cidr → ParsedIp → Bool
covers cidr ip =
    cidr.bits == ip.bits
    && (leb cidr.network ip.value && ltb ip.value (cidr.network + 2 ^ (cidr.bits - cidr.prefix)))

abbrev pub covered_by : Platform → ParsedIp → String → Bool
covered_by p ip entry = elim (parse_cidr p entry) [ none ↦ false | some cidr ↦ covers cidr ip ]

is_in_cidr-covers :
    (cidr : Cidr) (ip : ParsedIp) (a : ℕ)
    → cidr.network ≡ network_of a (cidr.bits - cidr.prefix)
    → is_in_cidr ip cidr ≡ covers cidr ip
unfolding is_in_cidr
is_in_cidr-covers cidr ip a h = elim (Bool-cases (cidr.bits == ip.bits)) [
  | inl same ↦
      let bits : ip.bits ≡ cidr.bits = ground (arith, same) in
      rw (same, bits, h) (network_of-eq ip.value a (cidr.bits - cidr.prefix))
  | inr other ↦ rw (other) refl
]

admits-covered :
    (p : Platform) (ip : ParsedIp) (entry : String) → admits p ip entry ≡ covered_by p ip entry
unfolding admits
admits-covered p ip entry = elim (Option-cases (parse_cidr p entry)) [
  | inl unread ↦ rw (unread, admits, covered_by) refl
  | inr (cidr, read) ↦
      let network = parse_cidr-network p entry cidr read in
      rw (read, admits, covered_by) (is_in_cidr-covers cidr ip network.0 network.1)
]

any-admits :
    (p : Platform) (ip : ParsedIp) (entries : List String)
    → any (admits p ip) entries ≡ any (covered_by p ip) entries
any-admits p ip [] = refl
any-admits p ip (entry ∷ entries) = rw (admits-covered p ip entry, any-admits p ip entries) refl

-- An address passes a list exactly when the list is empty, or the address can be read and lies, in its
-- family, in the block of one of the entries that can be read: between the first address of the entry's
-- network and the last.
pub is_ip_allowed-covered :
    (p : Platform) (ip : String) (entries : List String)
    → is_ip_allowed p ip entries ≡ (
        length entries == 0 || elim (parse_ip p ip) [
          | none ↦ false
          | some candidate ↦ any (covered_by p candidate) entries
        ])
unfolding is_ip_allowed
is_ip_allowed-covered p ip entries = elim (Option-cases (parse_ip p ip)) [
  | inl unread ↦ rw (unread, is_ip_allowed) (either (length entries == 0) false)
  | inr (candidate, read) ↦
      rw (read, is_ip_allowed, any-admits p candidate entries)
        (either (length entries == 0) (any (covered_by p candidate) entries))
]
  where
    either : (b c : Bool) → (if b then true else c) ≡ (b || c)
    either true c = refl
    either false c = refl
