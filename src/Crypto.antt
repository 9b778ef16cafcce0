-- ===== src/Crypto.antt =====
-- src/core/security/crypto.ts: the parts that other modules call. The digest of node:crypto is a
-- parameter.
use chat2api_web_gateway.Prelude.{◌===◌, text_take, String, Bool}

pub record Crypto : Type 0 where
  pub sha256 : String → String

abbrev pub hash_secret : Crypto → String → String
hash_secret crypto value = crypto.sha256 value

-- `timingSafeEqual` of the digests.
abbrev pub constant_time_equal : Crypto → String → String → Bool
constant_time_equal crypto left right = crypto.sha256 left === crypto.sha256 right

-- `value.slice(0, Math.min(12, value.length))`.
unfoldable pub secret_prefix : String → String
unfolding text_take
secret_prefix value = text_take 12 value
