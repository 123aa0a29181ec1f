-- ===== src/Gateway/Proofs.antt =====
-- services/orchestrator/src/auth/gateway-auth.service.ts: whom a request is taken to come from.
use minerva.Base.{
  ℕ, String, ◌≡◌, refl, ap, ap₂, inl, inr, true, false, Option, none, some, List, [], ◌∷◌, ◌==◌,
  arith, Bool-cases,
}
use minerva.Base.Text.{trim}
use minerva.Dict.{Dict, get}
use minerva.Exec.{Result, ok, err}
use minerva.Owner.{OwnerPrincipal}
use minerva.Gateway.{
  GatewayConfig, HeaderValue, single, several, bytes, same_bytes, is_expected_proof, require_value,
  read_required_header, principal, proven, authenticate,
}

same_bytes_lem : (xs ys : List ℕ) → same_bytes xs ys ≡ true → xs ≡ ys
same_bytes_lem [] [] h = refl
same_bytes_lem [] (b ∷ ys) h = ground arith
same_bytes_lem (a ∷ xs) [] h = ground arith
same_bytes_lem (a ∷ xs) (b ∷ ys) h =
    ap₂ (λ z zs. z ∷ zs) (ground arith) (same_bytes_lem xs ys (ground arith))

expected_lem :
    (secret value : String) → is_expected_proof secret value ≡ true → bytes value ≡ bytes secret
unfolding is_expected_proof
expected_lem secret value h = same_bytes_lem (bytes value) (bytes secret) (ground arith)

value_of : OwnerPrincipal → Result String OwnerPrincipal → OwnerPrincipal
value_of default (ok owner) = owner
value_of default (err e) = default

ok_injective : {a b : OwnerPrincipal} → ◌≡◌ {A = Result String OwnerPrincipal} (ok a) (ok b) → a ≡ b
unfolding value_of
ok_injective {a} h = ap (value_of a) h

module _ (to_lower_case : String → String) (headers : Dict HeaderValue) where
  -- A header whose value is one text, which is more than white space.
  abbrev pub Sent : String → String → Type 0
  Sent header_name value =
      (raw : String) × (get (to_lower_case header_name) headers ≡ some (single raw))
      × (trim raw ≡ value)
      × ((value == "") ≡ false)

  value_lem :
      (description value : String) (found : Option HeaderValue)
      → require_value to_lower_case headers description found ≡ ok value
      → (raw : String) × (found ≡ some (single raw)) × (trim raw ≡ value) × ((value == "") ≡ false)
  unfolding require_value
  value_lem description value none h = ground arith
  value_lem description value (some (several values)) h = ground arith
  value_lem description value (some (single raw)) h = elim (Bool-cases (trim raw == "")) [
    | inl e ↦ ground arith
    | inr e ↦ (raw, refl, ground arith, ground arith)
  ]

  principal_lem :
      (tenant subject : Result String String) (owner : OwnerPrincipal)
      → principal to_lower_case headers tenant subject ≡ ok owner
      → (tenant ≡ ok owner.tenant_id) × (subject ≡ ok owner.subject_id)
  principal_lem (err e) subject owner h = ground arith
  principal_lem (ok tenant) (err e) owner h = ground arith
  principal_lem (ok tenant) (ok subject) owner h =
      let same = ok_injective h in (ap (λ o. ok o.tenant_id) same, ap (λ o. ok o.subject_id) same)

  proven_lem :
      (config : GatewayConfig) (found : Result String String) (owner : OwnerPrincipal)
      → proven to_lower_case headers config found ≡ ok owner
      → (proof : String) × (found ≡ ok proof)
        × (is_expected_proof config.proof_secret proof ≡ true)
        × (principal to_lower_case headers
              (read_required_header to_lower_case headers config.tenant_id_header "tenant identity")
              (read_required_header to_lower_case headers config.subject_id_header
                "subject identity")
            ≡ ok owner)
  proven_lem config (err e) owner h = ground arith
  proven_lem config (ok proof) owner h =
      elim (Bool-cases (is_expected_proof config.proof_secret proof)) [
        | inl e ↦ (proof, refl, e, ground arith)
        | inr e ↦ ground arith
      ]

  -- Where a request is authenticated, the value of the gateway's header of the proof is one text,
  -- which without the white space around it has the bytes of the secret; the values of the headers
  -- of the tenant and of the subject are each one text and not blank, and the owner consists of
  -- these texts without the white space around them.
  pub authenticate_lem :
      (config : GatewayConfig) (owner : OwnerPrincipal)
      → authenticate to_lower_case headers config ≡ ok owner
      → ((proof : String) × Sent config.proof_header proof
          × (bytes proof ≡ bytes config.proof_secret))
        × Sent config.tenant_id_header owner.tenant_id
        × Sent config.subject_id_header owner.subject_id
  unfolding authenticate read_required_header
  authenticate_lem config owner h =
      let (proof, found, expected, named) =
        proven_lem config
          (read_required_header to_lower_case headers config.proof_header "gateway proof") owner
          h in
      let (tenant, subject) = principal_lem _ _ owner named in
      (
        (
          proof,
          value_lem "gateway proof" proof _ found,
          expected_lem config.proof_secret proof expected,
        ),
        value_lem "tenant identity" owner.tenant_id _ tenant,
        value_lem "subject identity" owner.subject_id _ subject,
      )
