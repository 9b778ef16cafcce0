-- ===== src/Chat/Messages.antt =====
-- The messages of routing failures (src/server/routes/openai.ts).
use chat2api_web_gateway.Prelude.{◌===◌, if◌then◌else◌, String}

-- `publicErrorMessage`: what the client is told of a routing failure.
unfoldable pub public_error_message : String → String
public_error_message code =
    if code === "invalid_media_input"
    then "The attached file is invalid, unsupported, or exceeds the configured limit."
    else if code === "provider_media_upload_failed"
    then "DeepSeek could not accept the attached file."
    else if code === "provider_media_processing_timeout"
    then "DeepSeek did not finish processing the attached file in time."
    else if code === "provider_authentication_failed"
    then "The configured DeepSeek session requires attention."
    else if code === "provider_rate_limited"
    then "DeepSeek is rate limited. Try again later."
    else if code === "provider_expert_busy"
    then "DeepSeek Expert is temporarily busy. Retry shortly."
    else if code === "provider_account_suspended"
    then "The configured DeepSeek account is temporarily suspended by the provider."
    else if code === "provider_timeout"
    then "DeepSeek did not respond in time."
    else if code === "provider_protocol_changed"
    then "The DeepSeek web protocol changed and requires an adapter update."
    else if code === "no_available_account"
    then "No healthy DeepSeek account is currently available."
    else if code === "account_queue_timeout"
    then "The DeepSeek account is busy. Try again shortly."
    else if code === "account_usage_window_exhausted"
    then "DeepSeek account usage is cooling down. Retry after capacity recovers."
    else if code === "background_capacity_reserved"
    then "Background capacity is paused to keep an account available for foreground requests."
    else if code === "background_usage_capacity_reserved"
    then "Background capacity is paused to preserve rolling account capacity for foreground requests."
    else if code === "provider_request_cancelled"
    then "The client closed the request."
    else "DeepSeek is currently unavailable."
