-- ===== src/Privacy/Tests.antt =====
-- Redactions of paths and URLs.
use linnix.Prelude.{◌≡◌, refl}
use linnix.Privacy.{external, full, ascii, redact_level, redact_url}

shows_basename : redact_level external (ascii "/usr/bin/curl") ≡ ascii "curl"
unfolding redact_level
shows_basename = refl

shows_category : redact_level full (ascii "/usr/bin/jq") ≡ ascii "data_processing"
unfolding redact_level
shows_category = refl

shows_host : redact_url external (ascii "https://a.io/v1?key=s") ≡ ascii "a.io"
unfolding redact_url
shows_host = refl

-- Without a path the query stays.
shows_query : redact_url external (ascii "https://a.io?key=s") ≡ ascii "a.io?key=s"
unfolding redact_url
shows_query = refl
