-- ===== src/Middleware/Header.antt =====
-- crates/router/src/middleware/header.rs
use tokendog.Base.{String, List, [], ◌∷◌, Bool, not, any, retain}
use tokendog.Base.Text.{str_eq}
use tokendog.Middleware.Context.{HeaderMap}

-- `HOP_BY_HOP`.
abbrev pub hop_by_hop : List String
hop_by_hop =
    "connection" ∷ "keep-alive" ∷ "proxy-authenticate" ∷ "proxy-authorization" ∷ "te" ∷ "trailers"
    ∷ "transfer-encoding" ∷ "upgrade" ∷ []

unfoldable pub is_hop_by_hop : String → Bool
is_hop_by_hop name = any (λ h. str_eq h name) hop_by_hop

unfoldable pub filter_hop_by_hop : HeaderMap → HeaderMap
filter_hop_by_hop headers = retain (λ (name, value). not (is_hop_by_hop name)) headers

abbrev pub has_header : String → HeaderMap → Bool
has_header name headers = any (λ (key, value). str_eq key name) headers
