-- ===== src/ApiKeys.antt =====
-- src/main/store/store.ts, the API keys: their records, their life cycle and their daily quota.
-- The SQL tables are lists of rows; a statement that selects by the primary key reads the row of that
-- id. Hashing, random ids and the clock are arguments.
pub mod Records
pub mod Store
pub mod Quota
pub use Records.{
  ApiScope, chat, models, StoredApiKey, CreateApiKeyInput, PublicApiKey, environment_api_key_id,
}
