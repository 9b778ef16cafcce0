-- ===== src/Router/Types.antt =====
-- The records that the router works on: src/main/store/types.ts, src/main/proxy/types.ts and the
-- interfaces of src/server/gateway/router.ts.
use chat2api_web_gateway.Prelude.{ℕ, String, Bool, Option, List}
use chat2api_web_gateway.Concurrency.{Priority, ConcurrencyGate}
use chat2api_web_gateway.Usage.{UsageEvent}

pub data AccountStatus : Type 0 where
  active inactive expired error : AccountStatus

pub data LoadBalanceStrategy : Type 0 where
  round_robin least_used failover : LoadBalanceStrategy

pub record Account : Type 0 where
  pub id : String
  pub provider_id : String
  pub name : String
  pub email : Option String
  pub credentials : List (String × String)
  pub status : AccountStatus
  pub last_used : Option ℕ
  pub created_at : ℕ
  pub updated_at : ℕ
  pub error_message : Option String
  pub request_count : Option ℕ
  pub daily_limit : Option ℕ
  pub today_used : Option ℕ
  pub usage_window_used : Option ℕ
  pub usage_window_reset_at : Option ℕ

pub record Provider : Type 0 where
  pub id : String
  pub name : String
  pub enabled : Bool
  pub created_at : ℕ
  pub updated_at : ℕ
  pub supported_models : List String

pub record AccountSelection : Type 0 where
  pub account : Account
  pub provider : Provider
  pub actual_model : String

pub record ChatCompletionRequest : Type 0 where
  pub model : String
  pub stream : Bool

pub record ProxyContext : Type 0 where
  pub request_id : String
  pub signal : Option ℕ
  pub priority : Option Priority

pub record RoutingFailure : Type 0 where
  pub status : ℕ
  pub code : String
  pub retry_after_seconds : Option ℕ

pub record CircuitState : Type 0 where
  pub failures : ℕ
  pub opened_until : ℕ
  pub code : Option String

pub record AccountFailureOutcome : Type 0 where
  pub status : ℕ
  pub code : String
  pub retry_after_ms : Option ℕ
  pub latency_ms : ℕ

-- The settings of `RuntimeConfig` that the router reads.
pub record RuntimeConfig : Type 0 where
  pub account_concurrency : ℕ
  pub background_account_reserve : ℕ
  pub background_usage_reserve : ℕ
  pub account_usage_window_ms : ℕ
  pub queue_max_depth : ℕ
  pub queue_timeout_ms : ℕ

-- What the store gives the router: the provider row, the account rows in the order of
-- `ORDER BY created_at`, the usage events and the strategy of the configuration.
pub record Store : Type 0 where
  pub provider : Option Provider
  pub accounts : List Account
  pub events : List UsageEvent
  pub strategy : LoadBalanceStrategy

-- `to_lower_case` is that of the language, on texts outside ASCII too; `fingerprint` is the hook
-- `getAccountIdentityFingerprint`.
pub record Hooks : Type 0 where
  pub to_lower_case : String → String
  pub fingerprint : String → Option String

pub record ProviderRoutingEngine : Type 0 where
  pub config : RuntimeConfig
  pub store : Store
  pub account_gates : List (String × ConcurrencyGate)
  pub circuits : List (String × CircuitState)
  pub round_robin_cursor : ℕ

-- One call of the hook `onAccountSuspended`.
pub record Suspension : Type 0 where
  pub account_id : String
  pub message : String
  pub retry_at : Option ℕ
  pub latency_ms : ℕ

-- What the provider's runtime answers; `stream` names the stream, if there is one.
pub record ForwardResult : Type 0 where
  pub success : Bool
  pub status : Option ℕ
  pub code : Option String
  pub retry_after_ms : Option ℕ
  pub stream : Option ℕ
  pub latency : Option ℕ

pub record ForwardStreamOutcome : Type 0 where
  pub success : Bool
  pub status : ℕ
  pub code : Option String
  pub retry_after_ms : Option ℕ

-- `permit` and `released` are what the closure `release` holds.
pub record RoutedResult : Type 0 where
  pub result : ForwardResult
  pub selection : AccountSelection
  pub primed : Option ℕ
  pub attempts : ℕ
  pub permit : ℕ
  pub released : Bool
