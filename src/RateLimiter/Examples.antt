-- ===== src/RateLimiter/Examples.antt =====
-- Runs of the limiter, and the theorem at an input that exercises it.
use chat2api_web_gateway.Prelude.{
  get, put, ℕ, ◌≤◌, String, ◌≡◌, refl, true, false, none, List, [], ◌∷◌, arith,
}
use chat2api_web_gateway.ApiKeys.{chat, StoredApiKey}
use chat2api_web_gateway.SlidingWindow.{in_window}
use chat2api_web_gateway.RateLimiter.{window_ms, consume, prune}
use chat2api_web_gateway.RateLimiter.Bound.{Call, consumes, prunes, grants, in_window-grants}

abbrev key_of : String → ℕ → StoredApiKey
key_of id limit = record {
  id = id;
  name = "n";
  key_hash = "h";
  key_prefix = "p";
  scopes = chat ∷ [];
  model_allowlist = [];
  requests_per_minute = limit;
  daily_quota = 10;
  enabled = true;
  managed_by_environment = false;
  usage_count = 0;
  created_at = 0;
  last_used_at = none;
  expires_at = none;
  allowed_cidrs = [];
  rotated_from_id = none;
  replaced_by_id = none;
}

abbrev calls : List (ℕ × Call)
calls =
    (1000, consumes (key_of "a" 2) "chat")
    ∷ (2000, consumes (key_of "a" 2) "chat")
    ∷ (3000, consumes (key_of "a" 2) "chat")
    ∷ (3000, consumes (key_of "a" 2) "models")
    ∷ (60999, prunes)
    ∷ (61000, consumes (key_of "a" 2) "chat")
    ∷ []

-- The third call is refused; after a minute the first one counts no longer.
calls_granted : grants "a:chat" (record { windows = [] }) [] calls ≡ 61000 ∷ 2000 ∷ 1000 ∷ []
unfolding grants consume prune get put
calls_granted = refl

in_window-grants_example :
    in_window window_ms 61000 (grants "a:chat" (record { windows = [] }) [] calls) ≤ 2
in_window-grants_example = in_window-grants "a:chat" 2 0 61000 calls (omega arith)
