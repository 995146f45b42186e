-- ===== src/Bulkhead/Permits.antt =====
-- Permits are neither made nor lost, none is idle while a call waits, and calls are let in in the
-- order in which they came.
use self_consistency_answer.Common.{
  ℕ, zero, suc, ◌+◌, ◌≡◌, refl, ◌⊎◌, inl, inr, Bool, true, false, List, [], ◌∷◌, ◌++◌, append-nil,
  append_assoc, arith, length, length-append, any, ◌==◌, ◌||◌, Bool-cases,
}
use self_consistency_answer.Bulkhead.{
  Semaphore, new_semaphore, take_permit, acquire, hand_on, drop_ticket, release, Life, begins,
  acquires, releases,
}

-- The permits in the pool and in use are those the semaphore was made with, and a call waits only
-- if the pool is empty.
pub record IsBalanced (permits : ℕ) (s : Semaphore) : Type 0 where
  pub conserved : s.available + length s.holding ≡ permits
  pub busy : (s.waiting ≡ []) ⊎ (s.available ≡ 0)

length-drop_ticket :
    (ticket : ℕ) (holding : List ℕ)
    → any (λ t. t == ticket) holding ≡ true
    → suc (length (drop_ticket ticket holding)) ≡ length holding
length-drop_ticket ticket [] h = cc
length-drop_ticket ticket (t ∷ holding) h = ground (arith, length-drop_ticket ticket holding)

acquire-IsBalanced :
    {permits : ℕ} (ticket available : ℕ) (s : Semaphore)
    → s.available ≡ available
    → IsBalanced permits s
    → IsBalanced permits (take_permit ticket available s)
acquire-IsBalanced ticket zero s e inv = record { conserved = inv.conserved; busy = inr e }
acquire-IsBalanced ticket (suc left) s e inv = record {
  conserved = rw length-append (omega (arith, inv.conserved, e));
  busy = elim inv.busy [
    | inl none_waits ↦ inl none_waits
    | inr empty ↦ absurd (omega (arith, e, empty))
  ];
}

hand_on-IsBalanced :
    {permits : ℕ} (waiting : List ℕ) (s : Semaphore)
    → s.available + suc (length s.holding) ≡ permits
    → (waiting ≡ []) ⊎ (s.available ≡ 0)
    → IsBalanced permits (hand_on waiting s)
hand_on-IsBalanced [] s e busy = record { conserved = omega (arith, e); busy = inl refl }
hand_on-IsBalanced (next ∷ waiting) s e busy = record {
  conserved = rw length-append (omega (arith, e));
  busy = elim busy [ inl h ↦ cc | inr empty ↦ inr empty ];
}

release-IsBalanced :
    {permits : ℕ} (ticket : ℕ) (s : Semaphore)
    → IsBalanced permits s
    → IsBalanced permits (release ticket s)
unfolding release
release-IsBalanced ticket s inv = elim (Bool-cases (any (λ t. t == ticket) s.holding)) [
  | inl holds ↦ rw holds (
      hand_on-IsBalanced s.waiting (record s { holding = drop_ticket ticket s.holding })
        (omega (arith, inv.conserved, length-drop_ticket ticket s.holding holds)) inv.busy)
  | inr idle ↦ rw idle inv
]

-- Whatever calls come and go, in any order, a release function that is called twice included: the
-- permits in the pool and in use add up to those the semaphore was made with, so no more calls than
-- that run at once; and while a call waits, the pool is empty.
pub Life-IsBalanced :
    {permits : ℕ} {s : Semaphore} {arrived : List ℕ} → Life permits s arrived → IsBalanced permits s
unfolding new_semaphore acquire
Life-IsBalanced begins = record { conserved = omega arith; busy = inl refl }
Life-IsBalanced (acquires {s = s} ticket r) =
    acquire-IsBalanced ticket s.available s refl (Life-IsBalanced r)
Life-IsBalanced (releases {s = s} ticket r) = release-IsBalanced ticket s (Life-IsBalanced r)

abbrev pub IsInOrder : List ℕ → List ℕ → Type 0
IsInOrder arrived waiting = (admitted : List ℕ) × (arrived ≡ admitted ++ waiting)

acquire-IsInOrder :
    (ticket available : ℕ) (s : Semaphore) (arrived : List ℕ)
    → s.available ≡ available
    → (s.waiting ≡ []) ⊎ (s.available ≡ 0)
    → IsInOrder arrived s.waiting
    → IsInOrder (arrived ++ ticket ∷ []) (take_permit ticket available s).waiting
acquire-IsInOrder ticket zero s arrived e busy (admitted, split) =
    (admitted, rw (split, append_assoc) refl)
acquire-IsInOrder ticket (suc left) s arrived e (inl none_waits) order =
    (arrived ++ ticket ∷ [], rw (none_waits, append-nil) refl)
acquire-IsInOrder ticket (suc left) s arrived e (inr empty) order = absurd (omega (arith, e, empty))

hand_on-IsInOrder :
    (waiting : List ℕ) (s : Semaphore) (arrived : List ℕ)
    → IsInOrder arrived waiting
    → IsInOrder arrived (hand_on waiting s).waiting
hand_on-IsInOrder [] s arrived order = order
hand_on-IsInOrder (next ∷ waiting) s arrived (admitted, split) =
    (admitted ++ next ∷ [], rw append_assoc split)

release-IsInOrder :
    (ticket : ℕ) (s : Semaphore) (arrived : List ℕ)
    → IsInOrder arrived s.waiting
    → IsInOrder arrived (release ticket s).waiting
unfolding release
release-IsInOrder ticket s arrived order = elim (Bool-cases (any (λ t. t == ticket) s.holding)) [
  | inl holds ↦ rw holds (
      hand_on-IsInOrder s.waiting (record s { holding = drop_ticket ticket s.holding }) arrived
        order)
  | inr idle ↦ rw idle order
]

-- The calls that wait are always the last that came, in the order in which they came: a call is let
-- in only after every call that came before it.
pub Life-IsInOrder :
    {permits : ℕ} {s : Semaphore} {arrived : List ℕ}
    → Life permits s arrived
    → IsInOrder arrived s.waiting
unfolding new_semaphore acquire
Life-IsInOrder begins = ([], refl)
Life-IsInOrder (acquires {s = s} {arrived = arrived} ticket r) =
    acquire-IsInOrder ticket s.available s arrived refl (Life-IsBalanced r).busy (Life-IsInOrder r)
Life-IsInOrder (releases {s = s} {arrived = arrived} ticket r) =
    release-IsInOrder ticket s arrived (Life-IsInOrder r)

any-append : (p : ℕ → Bool) (xs ys : List ℕ) → any p (xs ++ ys) ≡ (any p xs || any p ys)
any-append p [] ys = refl
any-append p (x ∷ xs) ys = ground (arith, any-append p xs ys)

hand_on-release :
    (ticket : ℕ) (waiting : List ℕ) (s : Semaphore)
    → any (λ t. t == ticket) (s.holding ++ waiting) ≡ false
    → release ticket (hand_on waiting s) ≡ hand_on waiting s
unfolding release
hand_on-release ticket [] s once =
    let gone : any (λ t. t == ticket) s.holding ≡ false = rw append-nil at once in rw gone refl
hand_on-release ticket (next ∷ waiting) s once =
    let gone : any (λ t. t == ticket) (s.holding ++ next ∷ []) ≡ false = ground (
      arith,
      any-append (λ t. t == ticket) s.holding (next ∷ []),
      any-append (λ t. t == ticket) s.holding (next ∷ waiting),
    ) in
    rw gone refl

-- A release function that is called a second time changes nothing, if its ticket was issued once.
pub release_twice :
    (ticket : ℕ) (s : Semaphore)
    → any (λ t. t == ticket) (drop_ticket ticket s.holding ++ s.waiting) ≡ false
    → release ticket (release ticket s) ≡ release ticket s
unfolding release
release_twice ticket s once = elim (Bool-cases (any (λ t. t == ticket) s.holding)) [
  | inl holds ↦
      rw holds (
        hand_on-release ticket s.waiting (record s { holding = drop_ticket ticket s.holding }) once)
  | inr idle ↦ rw (idle, idle) refl
]
