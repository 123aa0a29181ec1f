-- ===== src/Gateway.antt =====
-- services/orchestrator/src/auth/gateway-auth.service.ts: `GatewayAuthService`. An
-- `UnauthorizedException` is its message. `toLowerCase` is an argument.
pub mod Proofs
use Prim.Native.Char.{code}
use Prim.Native.String.{◌++◌ as ◌<>◌}
use mathlib.Core.Option
use minerva.Base.{
  ℕ, String, Bool, true, false, Option, none, some, List, [], ◌∷◌, ◌++◌, ◌&&◌, not, if◌then◌else◌,
  nat_eq, length, truthy,
}
use minerva.Base.Text.{trim}
use minerva.Dict.{Dict, get}
use minerva.Exec.{Result, ok, err}
use minerva.Owner.{OwnerPrincipal, utf8}

pub record GatewayConfig : Type 0 where
  pub proof_header : String
  pub proof_secret : String
  pub tenant_id_header : String
  pub subject_id_header : String

-- The value of a header as Node gives it: one text, to which a header of the gateway that is sent
-- several times is joined, or an array of texts.
pub data HeaderValue : Type 0 where
  single : String → HeaderValue
  several : List String → HeaderValue

-- `Buffer.from(text)`
unfoldable pub bytes : String → List ℕ
bytes String.[] = []
bytes (String.◌∷◌ c s) = utf8 (code c) ++ bytes s

-- `timingSafeEqual` of two buffers of the same length.
abbrev pub same_bytes : List ℕ → List ℕ → Bool
same_bytes [] [] = true
same_bytes [] (b ∷ ys) = false
same_bytes (a ∷ xs) [] = false
same_bytes (a ∷ xs) (b ∷ ys) = nat_eq a b && same_bytes xs ys

unfoldable pub is_expected_proof : String → String → Bool
unfolding bytes
is_expected_proof secret value =
    if not (nat_eq (length (bytes value)) (length (bytes secret)))
    then false
    else same_bytes (bytes value) (bytes secret)

module _ (to_lower_case : String → String) (headers : Dict HeaderValue) where
  -- The value that is there, once it is known to be one.
  unfoldable pub require_value : String → Option HeaderValue → Result String String
  require_value description none = err ("Missing " <> description)
  require_value description (some (several values)) =
      err ("Expected a single " <> description <> " header")
  require_value description (some (single raw_value)) = elim (truthy (some (trim raw_value))) [
    | none ↦ err ("Missing " <> description)
    | some value ↦ ok value
  ]

  unfoldable pub read_required_header : String → String → Result String String
  unfolding require_value
  read_required_header header_name description =
      require_value description (get (to_lower_case header_name) headers)

  abbrev pub principal : Result String String → Result String String → Result String OwnerPrincipal
  principal (err e) subject = err e
  principal (ok tenant) (err e) = err e
  principal (ok tenant) (ok subject) = ok record { tenant_id = tenant; subject_id = subject }

  abbrev pub proven : GatewayConfig → Result String String → Result String OwnerPrincipal
  proven config (err e) = err e
  proven config (ok proof) =
      if not (is_expected_proof config.proof_secret proof)
      then err "Invalid gateway proof"
      else principal (read_required_header config.tenant_id_header "tenant identity")
          (read_required_header config.subject_id_header "subject identity")

  unfoldable pub authenticate : GatewayConfig → Result String OwnerPrincipal
  unfolding read_required_header is_expected_proof
  authenticate config = proven config (read_required_header config.proof_header "gateway proof")
