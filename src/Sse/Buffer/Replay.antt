-- ===== src/Sse/Buffer/Replay.antt =====
-- sse/buffer.ts: what `getFrom` gives.
use minerva.Base.{ℕ, ◌≤◌, ◌≡◌, ◌↔◌, List, [], ◌∷◌, ◌++◌, leb, arith, inl, inr, ◌⊎◌, Bool-cases}
use minerva.Dict.{values}
use minerva.Sse.{Envelope}
use minerva.Sse.Buffer.{EventBuffer, events_from, collect, insert, sort, get_from}

abbrev pub In : {A : Type 0} → A → List A → Type 0
In x [] = ⊥
In x (y ∷ ys) = (x ≡ y) ⊎ In x ys

-- The event stands in one of the buffers.
abbrev pub InSome : {A : Type 0} → A → List (List A) → Type 0
InSome x [] = ⊥
InSome x (ys ∷ yss) = In x ys ⊎ InSome x yss

module _ {J : Type 0} where
  -- The numbers do not fall, and begin no lower than `n`.
  abbrev pub IsAscending : ℕ → List (Envelope J) → Type 0
  IsAscending n [] = Unit
  IsAscending n (x ∷ xs) = (n ≤ x.seq) × IsAscending x.seq xs

  insert-IsAscending :
      (n : ℕ) (e : Envelope J) (xs : List (Envelope J))
      → n ≤ e.seq
      → IsAscending n xs
      → IsAscending n (insert e xs)
  unfolding insert
  insert-IsAscending n e [] h a = (h, tt)
  insert-IsAscending n e (x ∷ xs) h a = elim (Bool-cases (leb e.seq x.seq)) [
    | inl b ↦ rw b (h, (ground arith, a.1))
    | inr b ↦ rw b (a.0, insert-IsAscending x.seq e xs (ground arith) a.1)
  ]

  In-insert : (e x : Envelope J) (xs : List (Envelope J)) → In x (insert e xs) ↔ (In x (e ∷ xs))
  unfolding insert
  In-insert e x [] = (λ h. h, λ h. h)
  In-insert e x (y ∷ ys) = elim (Bool-cases (leb e.seq y.seq)) [
    | inl b ↦ rw b (λ h. h, λ h. h)
    | inr b ↦ rw b (
      λ h. elim h [
        | inl p ↦ inr (inl p)
        | inr q ↦ elim ((In-insert e x ys).0 q) [ inl p ↦ inl p | inr r ↦ inr (inr r) ]
      ],
      λ h. elim h [
        | inl p ↦ inr ((In-insert e x ys).1 (inl p))
        | inr q ↦ elim q [ inl p ↦ inl p | inr r ↦ inr ((In-insert e x ys).1 (inr r)) ]
      ],
    )
  ]

  In-sort : (x : Envelope J) (xs : List (Envelope J)) → In x (sort xs) ↔ In x xs
  unfolding sort
  In-sort x [] = (λ h. h, λ h. h)
  In-sort x (y ∷ ys) = (
    λ h. elim ((In-insert y x (sort ys)).0 h) [ inl p ↦ inl p | inr q ↦ inr ((In-sort x ys).0 q) ],
    λ h. (In-insert y x (sort ys)).1 (elim h [ inl p ↦ inl p | inr q ↦ inr ((In-sort x ys).1 q) ]),
  )

  -- The numbers of the listed events are all at least `n`.
  abbrev AllFrom : ℕ → List (Envelope J) → Type 0
  AllFrom n [] = Unit
  AllFrom n (x ∷ xs) = (n ≤ x.seq) × AllFrom n xs

  sort-IsAscending : (n : ℕ) (xs : List (Envelope J)) → AllFrom n xs → IsAscending n (sort xs)
  unfolding sort
  sort-IsAscending n [] h = tt
  sort-IsAscending n (x ∷ xs) h = insert-IsAscending n x (sort xs) h.0 (sort-IsAscending n xs h.1)

  In-events_from :
      (n : ℕ) (x : Envelope J) (xs : List (Envelope J))
      → In x (events_from n xs) ↔ (In x xs × (n ≤ x.seq))
  unfolding events_from
  In-events_from n x [] = (λ h. absurd h, λ h. absurd h.0)
  In-events_from n x (y ∷ ys) = elim (Bool-cases (leb n y.seq)) [
    | inl b ↦ rw b (
      λ h. elim h [
        | inl p ↦ (inl p, ground (arith, p, b))
        | inr q ↦ let (i, le) = (In-events_from n x ys).0 q in (inr i, le)
      ],
      λ h. elim h.0 [ inl p ↦ inl p | inr q ↦ inr ((In-events_from n x ys).1 (q, h.1)) ],
    )
    | inr b ↦ rw b (
      λ h. let (i, le) = (In-events_from n x ys).0 h in (inr i, le),
      λ h. elim h.0 [
        | inl p ↦ absurd (ground (arith, p, b, h.1))
        | inr q ↦ (In-events_from n x ys).1 (q, h.1)
      ],
    )
  ]

  In-append : (x : Envelope J) (xs ys : List (Envelope J)) → In x (xs ++ ys) ↔ (In x xs ⊎ In x ys)
  In-append x [] ys = (inr, λ h. elim h [ inl p ↦ absurd p | inr q ↦ q ])
  In-append x (z ∷ zs) ys = (
    λ h. elim h [
      | inl p ↦ inl (inl p)
      | inr q ↦ elim ((In-append x zs ys).0 q) [ inl i ↦ inl (inr i) | inr j ↦ inr j ]
    ],
    λ h. elim h [
      | inl p ↦ elim p [ inl e ↦ inl e | inr i ↦ inr ((In-append x zs ys).1 (inl i)) ]
      | inr q ↦ inr ((In-append x zs ys).1 (inr q))
    ],
  )

  In-collect :
      (n : ℕ) (x : Envelope J) (xss : List (List (Envelope J)))
      → In x (collect n xss) ↔ (InSome x xss × (n ≤ x.seq))
  unfolding collect
  In-collect n x [] = (λ h. absurd h, λ h. absurd h.0)
  In-collect n x (xs ∷ xss) = (
    λ h. elim ((In-append x (events_from n xs) (collect n xss)).0 h) [
      | inl p ↦ let (i, le) = (In-events_from n x xs).0 p in (inl i, le)
      | inr q ↦ let (i, le) = (In-collect n x xss).0 q in (inr i, le)
    ],
    λ h. (In-append x (events_from n xs) (collect n xss)).1 (elim h.0 [
      | inl p ↦ inl ((In-events_from n x xs).1 (p, h.1))
      | inr q ↦ inr ((In-collect n x xss).1 (q, h.1))
    ]),
  )

  AllFrom-events_from :
      (n : ℕ) (xs ys : List (Envelope J)) → AllFrom n ys → AllFrom n (events_from n xs ++ ys)
  unfolding events_from
  AllFrom-events_from n [] ys h = h
  AllFrom-events_from n (x ∷ xs) ys h = elim (Bool-cases (leb n x.seq)) [
    | inl b ↦ rw b (ground (arith, b), AllFrom-events_from n xs ys h)
    | inr b ↦ rw b (AllFrom-events_from n xs ys h)
  ]

  AllFrom-collect : (n : ℕ) (xss : List (List (Envelope J))) → AllFrom n (collect n xss)
  unfolding collect
  AllFrom-collect n [] = tt
  AllFrom-collect n (xs ∷ xss) = AllFrom-events_from n xs (collect n xss) (AllFrom-collect n xss)

  -- The events that `getFrom` gives for a number are in ascending order of their numbers, from that
  -- number on; and an event is among them just if it stands in the buffer of some run, whichever,
  -- and its number is no lower.
  pub get_from_lem :
      (b : EventBuffer J) (n : ℕ) (x : Envelope J)
      → IsAscending n (get_from b n)
        × (In x (get_from b n) ↔ (InSome x (values b.buffers) × (n ≤ x.seq)))
  unfolding get_from
  get_from_lem b n x =
      let c = collect n (values b.buffers) in
      let s = In-sort x c in
      let k = In-collect n x (values b.buffers) in
      (
        sort-IsAscending n c (AllFrom-collect n (values b.buffers)),
        (λ h. k.0 (s.0 h), λ h. s.1 (k.1 h)),
      )
