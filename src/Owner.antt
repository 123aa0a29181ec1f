-- ===== src/Owner.antt =====
-- services/orchestrator/src/types/owner.ts: who owns a run, and the key of the owner's lane.
pub mod Bytes
pub mod Keys
use Prim.Native.Nat.{◌/◌, ◌%◌}
use Prim.Native.Char.{Char, code}
use minerva.Base.{
  ℕ, zero, suc, ◌+◌, String, Bool, ◌&&◌, ◌||◌, List, [], ◌∷◌, if◌then◌else◌, ◌==◌, ltb, leb, nat_eq,
}

pub record OwnerPrincipal : Type 0 where
  pub tenant_id : String
  pub subject_id : String

-- The characters that `encodeURIComponent` keeps: letters, digits and `- _ . ! ~ * ' ( )`.
abbrev is_mark : ℕ → Bool
is_mark n =
    nat_eq n b'-'
    || nat_eq n b'_'
    || nat_eq n b'.'
    || nat_eq n b'!'
    || nat_eq n b'~'
    || nat_eq n b'*'
    || nat_eq n 39
    || nat_eq n b'('
    || nat_eq n b')'

unfoldable pub is_unreserved : ℕ → Bool
is_unreserved n =
    (leb b'A' n && leb n b'Z')
    || (leb b'a' n && leb n b'z')
    || (leb b'0' n && leb n b'9')
    || is_mark n

-- The bytes of a character's UTF-8.
unfoldable pub utf8 : ℕ → List ℕ
utf8 n =
    if ltb n 128
    then n ∷ []
    else if ltb n 2048
    then (192 + n / 64) ∷ (128 + n % 64) ∷ []
    else if ltb n 65536
    then (224 + n / 4096) ∷ (128 + n / 64 % 64) ∷ (128 + n % 64) ∷ []
    else (240 + n / 262144) ∷ (128 + n / 4096 % 64) ∷ (128 + n / 64 % 64) ∷ (128 + n % 64) ∷ []

abbrev hex_digits : List Char
hex_digits =
    "0" ∷ "1" ∷ "2" ∷ "3" ∷ "4" ∷ "5" ∷ "6" ∷ "7" ∷ "8" ∷ "9" ∷ "A" ∷ "B" ∷ "C" ∷ "D" ∷ "E" ∷ "F"
    ∷ []

abbrev digit_at : List Char → ℕ → Char
digit_at [] n = "0"
digit_at (c ∷ cs) zero = c
digit_at (c ∷ cs) (suc n) = digit_at cs n

unfoldable pub hex_digit : ℕ → Char
hex_digit n = digit_at hex_digits n

-- The escapes `%XX` of the bytes, in front of a text.
unfoldable pub escape : List ℕ → String → String
unfolding hex_digit
escape [] rest = rest
escape (b ∷ bs) rest =
    String.◌∷◌ "%"
      (String.◌∷◌ (hex_digit (b / 16)) (String.◌∷◌ (hex_digit (b % 16)) (escape bs rest)))

unfoldable pub encode_char : Char → String → String
unfolding is_unreserved utf8 escape
encode_char c rest =
    if is_unreserved (code c) then String.◌∷◌ c rest else escape (utf8 (code c)) rest

-- `encodeURIComponent(s)`, in front of a text.
unfoldable pub encode_uri_component : String → String → String
unfolding encode_char
encode_uri_component String.[] rest = rest
encode_uri_component (String.◌∷◌ c s) rest = encode_char c (encode_uri_component s rest)

unfoldable pub owner_key_from_principal : OwnerPrincipal → String
unfolding encode_uri_component
owner_key_from_principal owner =
    if owner.tenant_id == "legacy"
    then owner.subject_id
    else encode_uri_component owner.tenant_id
        (String.◌∷◌ ":" (encode_uri_component owner.subject_id ""))

unfoldable pub same_owner_principal : OwnerPrincipal → OwnerPrincipal → Bool
same_owner_principal left right =
    (left.tenant_id == right.tenant_id) && (left.subject_id == right.subject_id)

unfoldable pub legacy_owner_principal_from_user_id : String → OwnerPrincipal
legacy_owner_principal_from_user_id user_id = record { tenant_id = "legacy"; subject_id = user_id }
