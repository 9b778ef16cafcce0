-- ===== src/LinkSessions/Examples.antt =====
-- A link session that two claims ask for.
use chat2api_web_gateway.Crypto.{Crypto}
use chat2api_web_gateway.Prelude.{get, put, ◌≡◌, refl, true, false, none, List, [], ◌∷◌}
use chat2api_web_gateway.LinkSessions.{
  browser_extension, native, CreateInput, Sessions, create, claim, fail, Event, claims, fails, run,
}
use chat2api_web_gateway.LinkSessions.Exclusive.{is_ready, claim-run-claim}

-- Texts stand for their own hashes here.
abbrev crypto : Crypto
crypto = record { sha256 = λ s. s }

abbrev input : CreateInput
input = record { owner_nonce = "owner"; name = "mine"; email = none; daily_limit = none }

abbrev linking : Sessions
linking = (create crypto [] input "id" (λ transport. "secret") 1000).0

abbrev between : List Event
between = claims "id" "secret" browser_extension 1500 ∷ fails "other" "code" "message" ∷ []

claim-run-claim_example :
    let later = run crypto (claim crypto linking "id" "secret" native 1200).0 between in
    is_ready (claim crypto later "id" "secret" browser_extension 2000).1 ≡ false
unfolding create claim get put
claim-run-claim_example =
    claim-run-claim crypto linking "id" "secret" "secret" native browser_extension 1200 2000 between
      refl (refl, (refl, tt))

-- When the work has failed the session may be claimed again.
reclaimed :
    is_ready
      (claim crypto
        (fail (claim crypto linking "id" "secret" native 1200).0 "id" "code" "message")
        "id"
        "secret"
        browser_extension
        2000).1
    ≡ true
unfolding create claim fail get put
reclaimed = refl
