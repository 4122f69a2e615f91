-- ===== src/SignEvents/Provider.antt =====
-- The identity provider of a guard, and the domain of a key, of
-- src/modules/near-ingest/sign-event-derivator.ts.
use fast_auth_indexer_api.Prelude.{
  ℕ, Bool, ◌||◌, Option, none, some, List, [], ◌∷◌, ◌==◌, if◌then◌else◌, Text, codes, eq_text,
  to_lower_case, trim, starts_with, includes, ◌>>=◌,
}
use fast_auth_indexer_api.Conversion.{Runtime, ends_with}

pub record ProviderClassification : Type 0 where
  pub provider_type : Text
  pub guard_name : Option Text

unfoldable pub prepend_code : ℕ → List Text → List Text
prepend_code c [] = (c ∷ []) ∷ []
prepend_code c (part ∷ parts) = (c ∷ part) ∷ parts

-- `s.split(c)`
unfoldable pub split : ℕ → Text → List Text
unfolding prepend_code
split c [] = [] ∷ []
split c (d ∷ s) = let parts = split c s in if d == c then [] ∷ parts else prepend_code d parts

-- `parts.length > 1 ? parts[1] : parts[0]`
unfoldable pub name_part : List Text → Text
name_part [] = []
name_part (part ∷ []) = part
name_part (part ∷ name ∷ parts) = name

abbrev unknown_provider : ProviderClassification
unknown_provider = record { provider_type = codes "unknown"; guard_name = none }

abbrev is_auth0_host : Text → Bool
is_auth0_host host = eq_text host (codes "auth0.com") || ends_with host (codes ".auth0.com")

-- By the host of a guard that is a URL, which may be malformed.
unfoldable pub host_provider : Option Text → Text
host_provider none = codes "custom_issuer"
host_provider (some host) =
    if is_auth0_host host
    then codes "auth0"
    else if eq_text host (codes "securetoken.google.com")
    then codes "firebase"
    else codes "custom_issuer"

unfoldable pub url_host : Runtime → Text → Option Text
url_host rt name = do host ← rt.hostname name; some (to_lower_case host)

unfoldable pub name_provider : Runtime → Text → Text
unfolding host_provider url_host
name_provider rt name =
    if includes name (codes "auth0")
    then codes "auth0"
    else if includes name (codes "firebase")
    then codes "firebase"
    else if includes name (codes "custom") || includes name (codes "issuer")
    then codes "custom_issuer"
    else if starts_with name (codes "http://") || starts_with name (codes "https://")
    then host_provider (url_host rt name)
    else codes "unknown"

unfoldable pub trimmed_provider : Runtime → Text → ProviderClassification
unfolding name_provider name_part split
trimmed_provider rt [] = unknown_provider
trimmed_provider rt (c ∷ guard) =
    let name = name_part (split b'#' (to_lower_case (c ∷ guard))) in
    record { provider_type = name_provider rt name; guard_name = some name }

-- `resolveProviderType`
unfoldable pub resolve_provider_type : Runtime → Option Text → ProviderClassification
unfolding trimmed_provider
resolve_provider_type rt none = unknown_provider
resolve_provider_type rt (some guard_id) = trimmed_provider rt (trim guard_id)

unfoldable pub domain_of : Text → Option ℕ
domain_of normalized =
    if eq_text normalized (codes "eddsa")
    then some 1
    else if eq_text normalized (codes "secp256k1") || eq_text normalized (codes "ecdsa")
    then some 0
    else none

-- `toMpcDomainId`; the empty text is no algorithm, and names no domain.
unfoldable pub to_mpc_domain_id : Option Text → Option ℕ
unfolding domain_of
to_mpc_domain_id none = none
to_mpc_domain_id (some algorithm) = domain_of (to_lower_case (trim algorithm))
