-- ===== src/Owner/Bytes.antt =====
-- types/owner.ts: reading a character back from its escapes.
use Prim.Native.Nat.{◌/◌, ◌%◌, compare, Ordering}
use Prim.Native.Char.{Char, char, code, IsLt}
use minerva.Base.{
  length, ℕ, zero, suc, ◌+◌, ◌-◌, ◌≤◌, ◌<◌, String, ◌≡◌, refl, sym, ap, ◌∙◌, List, [], ◌∷◌,
  if◌then◌else◌, ltb, leb, arith, Bool-cases, inl, inr,
}
use minerva.Owner.{utf8, hex_digit, hex_digits, digit_at, escape}

abbrev pub first_or : Char → String → Char
first_or c String.[] = c
first_or c (String.◌∷◌ d s) = d

abbrev pub rest_of : String → String
rest_of String.[] = String.[]
rest_of (String.◌∷◌ d s) = s

-- The value of a hexadecimal digit.
hex_value : Char → ℕ
hex_value c = if leb (code c) 57 then code c - 48 else code c - 55

-- The digits of a table have the values from `i` on.
HasValues : ℕ → List Char → Type 0
HasValues i [] = Unit
HasValues i (c ∷ cs) = (hex_value c ≡ i) × HasValues (suc i) cs

digit_at_lem :
    (cs : List Char) (i n : ℕ) → HasValues i cs → n < length cs → hex_value (digit_at cs n) ≡ i + n
unfolding HasValues
digit_at_lem [] i n h l = absurd (omega arith)
digit_at_lem (c ∷ cs) i zero h l = omega (arith, h.0)
digit_at_lem (c ∷ cs) i (suc n) h l = omega (arith, digit_at_lem cs (suc i) n h.1 (omega arith))

hex_digits-HasValues : HasValues 0 hex_digits
unfolding HasValues hex_value
hex_digits-HasValues = (
  refl,
  (
    refl,
    (
      refl,
      (
        refl,
        (
          refl,
          (
            refl,
            (refl, (refl, (refl, (refl, (refl, (refl, (refl, (refl, (refl, (refl, tt)))))))))),
          ),
        ),
      ),
    ),
  ),
)

hex_value-hex_digit : (n : ℕ) → n < 16 → hex_value (hex_digit n) ≡ n
unfolding hex_digit
hex_value-hex_digit n h = digit_at_lem hex_digits 0 n hex_digits-HasValues h ∙ omega arith

hex_digit_eq : (a b : ℕ) → a < 16 → b < 16 → hex_digit a ≡ hex_digit b → a ≡ b
hex_digit_eq a b h k e = sym (hex_value-hex_digit a h) ∙ ap hex_value e ∙ hex_value-hex_digit b k

-- The definition of a scalar value, on the three comparisons.
abbrev IsBelow : Ordering → Ordering → Type 0
IsBelow Ordering.lt c = IsLt c
IsBelow Ordering.eq _ = ⊥
IsBelow Ordering.gt _ = ⊥

abbrev IsScalarBy : Ordering → Ordering → Ordering → Type 0
IsScalarBy Ordering.lt _ _ = Unit
IsScalarBy Ordering.eq b c = IsBelow b c
IsScalarBy Ordering.gt b c = IsBelow b c

pub code_bound : (c : Char) → code c < 1114112
code_bound (char n p) = bound (compare n 55296) (compare 57343 n) (compare n 1114112) refl refl p
  where
    below : (b c : Ordering) → compare n 1114112 ≡ c → IsBelow b c → n < 1114112
    below Ordering.lt Ordering.lt g q = ground (arith, g)
    below Ordering.lt Ordering.eq g q = absurd q
    below Ordering.lt Ordering.gt g q = absurd q
    below Ordering.eq c g q = absurd q
    below Ordering.gt c g q = absurd q

    bound :
        (a b c : Ordering)
        → compare n 55296 ≡ a
        → compare n 1114112 ≡ c
        → IsScalarBy a b c
        → n < 1114112
    bound Ordering.lt b c e g q = ground (arith, e)
    bound Ordering.eq b c e g q = below b c g q
    bound Ordering.gt b c e g q = below b c g q

byte_read :
    (a b : ℕ) (bs ds : List ℕ) (x y : String)
    → a < 256
    → b < 256
    → escape (a ∷ bs) x ≡ escape (b ∷ ds) y
    → (a ≡ b) × (escape bs x ≡ escape ds y)
unfolding escape
byte_read a b bs ds x y h k e =
    let high =
      hex_digit_eq (a / 16) (b / 16) (omega arith) (omega arith)
        (ap (λ s. first_or "0" (rest_of s)) e) in
    let low =
      hex_digit_eq (a % 16) (b % 16) (omega arith) (omega arith)
        (ap (λ s. first_or "0" (rest_of (rest_of s))) e) in
    (omega (arith, high, low), ap (λ s. rest_of (rest_of (rest_of s))) e)

data Size (n : ℕ) : Type 0 where
  one : n < 128 → Size n
  two : 128 ≤ n → n < 2048 → Size n
  three : 2048 ≤ n → n < 65536 → Size n
  four : 65536 ≤ n → Size n

size : (n : ℕ) → Size n
size n = elim (Bool-cases (ltb n 128)) [
  | inl a ↦ one (ground arith)
  | inr a ↦ elim (Bool-cases (ltb n 2048)) [
    | inl b ↦ two (ground arith) (ground arith)
    | inr b ↦ elim (Bool-cases (ltb n 65536)) [
      | inl c ↦ three (ground arith) (ground arith)
      | inr c ↦ four (ground arith)
    ]
  ]
]

-- The first byte, and the others.
abbrev lead : {n : ℕ} → Size n → ℕ
lead {n} (one _) = n
lead {n} (two _ _) = 192 + n / 64
lead {n} (three _ _) = 224 + n / 4096
lead {n} (four _) = 240 + n / 262144

abbrev follow : {n : ℕ} → Size n → List ℕ
follow {n} (one _) = []
follow {n} (two _ _) = (128 + n % 64) ∷ []
follow {n} (three _ _) = (128 + n / 64 % 64) ∷ (128 + n % 64) ∷ []
follow {n} (four _) = (128 + n / 4096 % 64) ∷ (128 + n / 64 % 64) ∷ (128 + n % 64) ∷ []

utf8_lem : (n : ℕ) (s : Size n) → utf8 n ≡ lead s ∷ follow s
unfolding utf8
utf8_lem n (one a) = ground arith
utf8_lem n (two a b) = ground arith
utf8_lem n (three a b) = ground arith
utf8_lem n (four a) = ground arith

lead_bound : (n : ℕ) (s : Size n) → n < 1114112 → lead s < 256
lead_bound n (one a) h = omega arith
lead_bound n (two a b) h = omega arith
lead_bound n (three a b) h = omega arith
lead_bound n (four a) h = omega arith

module _ (n m : ℕ) (x y : String) (h : n < 1114112) (k : m < 1114112) where
  read_back :
      (s : Size n) (t : Size m)
      → lead s ≡ lead t
      → escape (follow s) x ≡ escape (follow t) y
      → (n ≡ m) × (escape [] x ≡ escape [] y)
  read_back (one a) (one b) e f = (e, f)
  read_back (two a a') (two b b') e f =
      let (p, g) =
        byte_read (128 + n % 64) (128 + m % 64) [] [] x y (omega arith) (omega arith) f in
      (omega (arith, e, p), g)
  read_back (three a a') (three b b') e f =
      let (p, g) =
        byte_read (128 + n / 64 % 64) (128 + m / 64 % 64) ((128 + n % 64) ∷ [])
          ((128 + m % 64) ∷ []) x y (omega arith) (omega arith) f in
      let (q, i) =
        byte_read (128 + n % 64) (128 + m % 64) [] [] x y (omega arith) (omega arith) g in
      (omega (arith, e, p, q), i)
  read_back (four a) (four b) e f =
      let (o, j) =
        byte_read (128 + n / 4096 % 64) (128 + m / 4096 % 64)
          ((128 + n / 64 % 64) ∷ (128 + n % 64) ∷ []) ((128 + m / 64 % 64) ∷ (128 + m % 64) ∷ []) x
          y (omega arith) (omega arith) f in
      let (p, g) =
        byte_read (128 + n / 64 % 64) (128 + m / 64 % 64) ((128 + n % 64) ∷ [])
          ((128 + m % 64) ∷ []) x y (omega arith) (omega arith) j in
      let (q, i) =
        byte_read (128 + n % 64) (128 + m % 64) [] [] x y (omega arith) (omega arith) g in
      (omega (arith, e, o, p, q), i)
  read_back (one a) (two b b') e f = absurd (omega arith)
  read_back (one a) (three b b') e f = absurd (omega arith)
  read_back (one a) (four b) e f = absurd (omega arith)
  read_back (two a a') (one b) e f = absurd (omega arith)
  read_back (two a a') (three b b') e f = absurd (omega arith)
  read_back (two a a') (four b) e f = absurd (omega arith)
  read_back (three a a') (one b) e f = absurd (omega arith)
  read_back (three a a') (two b b') e f = absurd (omega arith)
  read_back (three a a') (four b) e f = absurd (omega arith)
  read_back (four a) (one b) e f = absurd (omega arith)
  read_back (four a) (two b b') e f = absurd (omega arith)
  read_back (four a) (three b b') e f = absurd (omega arith)

  -- The escapes of a character, in front of any text, can be read back.
  pub escape_eq : escape (utf8 n) x ≡ escape (utf8 m) y → (n ≡ m) × (x ≡ y)
  unfolding escape
  escape_eq e =
      let s = size n in
      let t = size m in
      let e' = rw (utf8_lem n s, utf8_lem m t) at e in
      let (p, f) =
        byte_read (lead s) (lead t) (follow s) (follow t) x y (lead_bound n s h) (lead_bound m t k)
          e' in
      read_back s t p f

-- An escape begins with a percent sign.
pub first-escape : (n : ℕ) (c : Char) (x : String) → first_or c (escape (utf8 n) x) ≡ "%"
unfolding escape
first-escape n c x = rw (utf8_lem n (size n)) refl
