-- ===== src/Owner/Keys.antt =====
-- types/owner.ts: which owners share a key.
use Prim.Native.Char.{Char, code}
use text.Mathlib.TextEquality.{Char-path}
use minerva.Base.{
  String, ◌≡◌, ◌≢◌, refl, sym, ap, ◌∙◌, Bool, true, false, if◌then◌else◌, arith, ◌==◌, eq_iff,
}
use minerva.Owner.{
  OwnerPrincipal, is_unreserved, utf8, escape, encode_char, encode_uri_component,
  owner_key_from_principal, same_owner_principal,
}
use minerva.Owner.Bytes.{first_or, rest_of, escape_eq, code_bound, first-escape}

-- A kept character and the sign of an escape.
kept_is_no_percent : (c : Char) → is_unreserved (code c) ≡ true → code c ≢ 37
unfolding is_unreserved
kept_is_no_percent c h e = absurd (ground (arith, h, e))

kept_is_no_colon : (c : Char) → is_unreserved (code c) ≡ true → code c ≢ 58
unfolding is_unreserved
kept_is_no_colon c h e = absurd (ground (arith, h, e))

encode_char_eq : (c d : Char) (x y : String) → encode_char c x ≡ encode_char d y → (c ≡ d) × (x ≡ y)
unfolding encode_char
encode_char_eq c d x y = by_kinds (is_unreserved (code c)) (is_unreserved (code d)) refl refl
  where
    encoded : Char → Bool → String → String
    encoded c b x = if b then String.◌∷◌ c x else escape (utf8 (code c)) x

    by_kinds :
        (a b : Bool)
        → is_unreserved (code c) ≡ a
        → is_unreserved (code d) ≡ b
        → encoded c a x ≡ encoded d b y
        → (c ≡ d) × (x ≡ y)
    by_kinds true true h k e = (ap (first_or c) e, ap rest_of e)
    by_kinds false false h k e =
        let (p, f) = escape_eq (code c) (code d) x y (code_bound c) (code_bound d) e in
        (Char-path c d p, f)
    by_kinds true false h k e = absurd (
        kept_is_no_percent c h
          (ap (λ s. code (first_or c s)) e ∙ ap code (first-escape (code d) c y)))
    by_kinds false true h k e = absurd (
        kept_is_no_percent d k
          (sym (ap (λ s. code (first_or d s)) e) ∙ ap code (first-escape (code c) d x)))

-- What stands behind an encoded part of a key.
IsEnd : String → Type 0
IsEnd String.[] = Unit
IsEnd (String.◌∷◌ c s) = c ≡ ":"

first-IsEnd : (t : String) → IsEnd t → first_or ":" t ≡ ":"
unfolding IsEnd
first-IsEnd String.[] h = refl
first-IsEnd (String.◌∷◌ c s) h = h

encoded_is_no_end : (c : Char) (x t : String) → IsEnd t → t ≢ encode_char c x
unfolding encode_char
encoded_is_no_end c x t h = by_kind (is_unreserved (code c)) refl
  where
    by_kind :
        (a : Bool)
        → is_unreserved (code c) ≡ a
        → t ≢ (if a then String.◌∷◌ c x else escape (utf8 (code c)) x)
    by_kind true k e =
        kept_is_no_colon c k (sym (ap (λ s. code (first_or ":" s)) e) ∙ ap code (first-IsEnd t h))
    by_kind false k e =
        let p : 58 ≡ 37 =
          sym (ap code (first-IsEnd t h))
          ∙ ap (λ s. code (first_or ":" s)) e
          ∙ ap code (first-escape (code c) ":" x) in
        absurd (omega (arith, p))

encode_eq :
    (s s' t t' : String)
    → IsEnd t
    → IsEnd t'
    → encode_uri_component s t ≡ encode_uri_component s' t'
    → (s ≡ s') × (t ≡ t')
unfolding encode_uri_component
encode_eq String.[] String.[] t t' h k e = (refl, e)
encode_eq String.[] (String.◌∷◌ d s') t t' h k e = absurd (encoded_is_no_end d _ t h e)
encode_eq (String.◌∷◌ c s) String.[] t t' h k e = absurd (encoded_is_no_end c _ t' k (sym e))
encode_eq (String.◌∷◌ c s) (String.◌∷◌ d s') t t' h k e =
    let (p, f) = encode_char_eq c d (encode_uri_component s t) (encode_uri_component s' t') e in
    let (q, g) = encode_eq s s' t t' h k f in (λ i. String.◌∷◌ (p i) (q i), g)

-- Two owners outside the tenant `legacy` that have the same key are the same owner.
pub owner_key_determines_owner :
    (p q : OwnerPrincipal)
    → (p.tenant_id == "legacy") ≡ false
    → (q.tenant_id == "legacy") ≡ false
    → owner_key_from_principal p ≡ owner_key_from_principal q
    → same_owner_principal p q ≡ true
unfolding owner_key_from_principal same_owner_principal IsEnd
owner_key_determines_owner p q h k e =
    let e' = rw (h, k) at e in
    let (t, f) = encode_eq p.tenant_id q.tenant_id _ _ refl refl e' in
    let (s, _) = encode_eq p.subject_id q.subject_id "" "" tt tt (ap rest_of f) in
    ground (arith, t, s, eq_iff p.tenant_id q.tenant_id, eq_iff p.subject_id q.subject_id)
