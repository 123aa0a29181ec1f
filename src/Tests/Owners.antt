-- ===== src/Tests/Owners.antt =====
-- Keys of owners at concrete inputs.
use minerva.Base.{String, ◌≡◌, refl, true, [], ◌∷◌}
use minerva.Base.Text.{trim}
use minerva.Exec.{ok}
use minerva.Dict.{Dict, get}
use minerva.Gateway.{GatewayConfig, HeaderValue, single, bytes, authenticate}
use minerva.Gateway.Proofs.{Sent, authenticate_lem}
use minerva.Owner.{
  OwnerPrincipal, owner_key_from_principal, same_owner_principal, encode_uri_component, encode_char,
  escape, utf8, is_unreserved, hex_digit,
}
use minerva.Owner.Keys.{owner_key_determines_owner}

abbrev acme_ann : OwnerPrincipal
acme_ann = record { tenant_id = "acme/eu"; subject_id = "ann" }

key_of_acme_ann : owner_key_from_principal acme_ann ≡ "acme%2Feu:ann"
unfolding owner_key_from_principal encode_uri_component encode_char escape utf8 is_unreserved
    hex_digit
key_of_acme_ann = refl

-- A user of the tenant `legacy` whose name is the key of another owner has that key.
abbrev impostor : OwnerPrincipal
impostor = record { tenant_id = "legacy"; subject_id = "acme%2Feu:ann" }

key_of_impostor : owner_key_from_principal impostor ≡ "acme%2Feu:ann"
unfolding owner_key_from_principal
key_of_impostor = refl

owner_key_determines_owner_example : same_owner_principal acme_ann acme_ann ≡ true
owner_key_determines_owner_example = owner_key_determines_owner acme_ann acme_ann refl refl refl

abbrev gateway : GatewayConfig
gateway = record {
  proof_header = "x-proof";
  proof_secret = "s3cret";
  tenant_id_header = "x-tenant";
  subject_id_header = "x-subject";
}

abbrev sent_headers : Dict HeaderValue
sent_headers =
    ("x-proof", single " s3cret") ∷ ("x-tenant", single "acme") ∷ ("x-subject", single "ann ") ∷ []

abbrev known_ann : OwnerPrincipal
known_ann = record { tenant_id = "acme"; subject_id = "ann" }

ann_is_known : authenticate (λ s. s) sent_headers gateway ≡ ok known_ann
unfolding authenticate get utf8 trim
ann_is_known = refl

authenticate_lem_example :
    ((proof : String) × Sent (λ s. s) sent_headers "x-proof" proof × (bytes proof ≡ bytes "s3cret"))
    × Sent (λ s. s) sent_headers "x-tenant" "acme"
    × Sent (λ s. s) sent_headers "x-subject" "ann"
authenticate_lem_example = authenticate_lem (λ s. s) sent_headers gateway known_ann ann_is_known
