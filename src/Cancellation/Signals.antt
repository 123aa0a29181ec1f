-- ===== src/Cancellation/Signals.antt =====
-- What a holder of a signal observes of the registry's operations.
use minerva.Base.{
  ℕ, zero, suc, ◌<◌, String, ◌≡◌, ◌≢◌, refl, true, false, Option, none, some, List, [], ◌∷◌, ◌++◌,
  if◌then◌else◌, length, arith, nat_eq, eq_iff, length-append, Option-cases, inl, inr,
}
use minerva.Dict.{get, delete, get-set, get-delete}
use minerva.Cancellation.{
  CancellationContext, CancellationRegistry, new_context, cancel_context, load, modify, remove,
  create, cancel, is_cancelled,
}

pub load-modify :
    (f : CancellationContext → CancellationContext) (cs : List CancellationContext) (i j : ℕ)
    → load (modify f cs i) j
      ≡ (if nat_eq i j then elim (load cs j) [ none ↦ none | some c ↦ some (f c) ] else load cs j)
load-modify f [] i j = ground arith
load-modify f (c ∷ cs) zero zero = refl
load-modify f (c ∷ cs) zero (suc j) = ground arith
load-modify f (c ∷ cs) (suc i) zero = ground arith
load-modify f (c ∷ cs) (suc i) (suc j) = ground (arith, load-modify f cs i j)

length-modify :
    (f : CancellationContext → CancellationContext) (cs : List CancellationContext) (i : ℕ)
    → length (modify f cs i) ≡ length cs
length-modify f [] i = refl
length-modify f (c ∷ cs) zero = refl
length-modify f (c ∷ cs) (suc i) = omega (arith, length-modify f cs i)

load-append :
    (cs ds : List CancellationContext) (i : ℕ) → i < length cs → load (cs ++ ds) i ≡ load cs i
load-append [] ds i h = absurd (omega arith)
load-append (c ∷ cs) ds zero h = refl
load-append (c ∷ cs) ds (suc i) h = load-append cs ds i (omega arith)

load-snoc :
    (cs : List CancellationContext) (c : CancellationContext)
    → load (cs ++ c ∷ []) (length cs) ≡ some c
load-snoc [] c = refl
load-snoc (d ∷ cs) c = load-snoc cs c

load_bound :
    (cs : List CancellationContext) (i : ℕ)
    → i < length cs
    → (c : CancellationContext) × (load cs i ≡ some c)
load_bound [] i h = absurd (omega arith)
load_bound (c ∷ cs) zero h = (c, refl)
load_bound (c ∷ cs) (suc i) h = load_bound cs i (omega arith)

-- The registry names objects that exist, each run its own.
pub record IsAllocated (s : CancellationRegistry) : Type 0 where
  pub below : (r : String) (i : ℕ) → get r s.contexts ≡ some i → i < length s.store
  pub apart :
      (r r' : String) (i : ℕ) → get r s.contexts ≡ some i → get r' s.contexts ≡ some i → r ≡ r'

pub create-IsAllocated :
    (s : CancellationRegistry) (r : String) → IsAllocated s → IsAllocated (create s r).0
unfolding create
create-IsAllocated s r v = record {
  below = λ w i h. ground (
    arith,
    h,
    get-set r w (length s.store) (delete r s.contexts),
    get-delete r w s.contexts,
    v.below w i,
    length-append s.store (new_context r ∷ []),
  );
  apart = λ w w' i h h'. ground (
    arith,
    h,
    h',
    get-set r w (length s.store) (delete r s.contexts),
    get-delete r w s.contexts,
    get-set r w' (length s.store) (delete r s.contexts),
    get-delete r w' s.contexts,
    v.below w i,
    v.below w' i,
    v.apart w w' i,
    eq_iff r w,
    eq_iff r w',
  );
}

pub remove-IsAllocated :
    (s : CancellationRegistry) (r : String) → IsAllocated s → IsAllocated (remove s r)
unfolding remove
remove-IsAllocated s r v = record {
  below = λ w i h. ground (arith, h, get-delete r w s.contexts, v.below w i);
  apart = λ w w' i h h'.
      ground (arith, h, h', get-delete r w s.contexts, get-delete r w' s.contexts, v.apart w w' i);
}

pub cancel-IsAllocated :
    (s : CancellationRegistry) (r : String) (reason : Option String)
    → IsAllocated s
    → IsAllocated (cancel s r reason).0
unfolding cancel
cancel-IsAllocated s r reason v = elim (Option-cases (get r s.contexts)) [
  | inl e ↦ rw (e, cancel) v
  | inr (i, e) ↦
      rw (e, cancel)
        (record {
          below = λ w j h.
              omega (arith, v.below w j h, length-modify (cancel_context reason) s.store i);
          apart = v.apart;
        })
]

-- The run of a new context is not cancelled; a `cancel` of the run then writes that context, with the
-- reason given, so that the run is cancelled, and leaves every context that was there before alone.
pub create-cancel :
    (s : CancellationRegistry) (r : String) (reason : Option String) (i : ℕ)
    → i < length s.store
    → let (s', new) = create s r in
      (is_cancelled s' r ≡ false)
      × (load (cancel s' r reason).0.store new ≡ some (cancel_context reason (new_context r)))
      × (is_cancelled (cancel s' r reason).0 r ≡ true)
      × (load (cancel s' r reason).0.store i ≡ load s.store i)
unfolding create cancel is_cancelled
create-cancel s r reason i h =
    let n = length s.store in
    let store = s.store ++ new_context r ∷ [] in
    ground (
      arith,
      get-set r r n (delete r s.contexts),
      eq_iff r r,
      load-snoc s.store (new_context r),
      load-modify (cancel_context reason) store n n,
      load-modify (cancel_context reason) store n i,
      load-append s.store (new_context r ∷ []) i,
    )

pub cancel_missing :
    (s : CancellationRegistry) (r : String) (reason : Option String)
    → get r s.contexts ≡ none
    → cancel s r reason ≡ (s, false)
unfolding cancel
cancel_missing s r reason e = rw (e, cancel)

pub cancel_found :
    (s : CancellationRegistry) (r : String) (reason : Option String) (i : ℕ)
    → get r s.contexts ≡ some i
    → cancel s r reason ≡ (record s { store = modify (cancel_context reason) s.store i }, true)
unfolding cancel
cancel_found s r reason i e = rw (e, cancel)

cancel_context_twice :
    (s : CancellationRegistry) (first second : Option String) (k i : ℕ)
    → load (modify (cancel_context second) (modify (cancel_context first) s.store k) k) i
      ≡ load (modify (cancel_context first) s.store k) i
cancel_context_twice s first second k i = ground (
  arith,
  load-modify (cancel_context first) s.store k i,
  load-modify (cancel_context second) (modify (cancel_context first) s.store k) k i,
)

-- The first cancellation decides: a second one, for whatever reason, changes no context.
pub cancel_idem :
    (s : CancellationRegistry) (r : String) (first second : Option String) (i : ℕ)
    → load (cancel (cancel s r first).0 r second).0.store i ≡ load (cancel s r first).0.store i
cancel_idem s r first second i = elim (Option-cases (get r s.contexts)) [
  | inl e ↦ rw (cancel_missing s r first e, cancel_missing s r second e)
  | inr (k, e) ↦ rw (cancel_found s r first k e) (
      rw (cancel_found (record s { store = modify (cancel_context first) s.store k }) r second k e)
        (cancel_context_twice s first second k i))
]

-- In an allocated registry, cancelling one run does not change whether another is cancelled.
pub cancel-other :
    (s : CancellationRegistry) (r r' : String) (reason : Option String)
    → IsAllocated s
    → r ≢ r'
    → is_cancelled (cancel s r reason).0 r' ≡ is_cancelled s r'
unfolding cancel is_cancelled
cancel-other s r r' reason v n = elim (Option-cases (get r s.contexts)) [
  | inl e ↦ rw (e, cancel)
  | inr (i, e) ↦
      rw (e, cancel)
        (elim (Option-cases (get r' s.contexts)) [
          | inl e' ↦ rw (e', is_cancelled)
          | inr (j, e') ↦
              ground
                (arith, e', load-modify (cancel_context reason) s.store i j, v.apart r r' i, n, e)
        ])
]
