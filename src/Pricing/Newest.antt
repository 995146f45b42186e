-- ===== src/Pricing/Newest.antt =====
-- The price in force is the newest that applies.
use self_consistency_answer.Common.{
  ℕ, ◌≡◌, refl, sym, subst, ◌∙◌, inl, inr, Bool, true, false, not, ◌||◌, Option, none, some, String,
  List, [], ◌∷◌, arith, filter, any, all, head?, if◌then◌else◌, Bool-cases,
}
use self_consistency_answer.Pricing.{
  Host, ModelPrice, is_applicable, place, newest_first, find_model_price,
}

-- The order of the texts of two dates: no two are each later than the other, and being no later is
-- transitive.
pub record IsOrder (is_later : String → String → Bool) : Type 0 where
  pub asymmetric : (a b : String) → is_later a b ≡ true → is_later b a ≡ false
  pub transitive :
      (a b c : String) → is_later a b ≡ false → is_later b c ≡ false → is_later a c ≡ false

abbrev pub is_no_later : Host → ModelPrice → ModelPrice → Bool
is_no_later host p q = not (host.is_later q.effective_from p.effective_from)

none_later :
    (host : Host) (p q : ModelPrice) (prices : List ModelPrice)
    → IsOrder host.is_later
    → host.is_later q.effective_from p.effective_from ≡ false
    → all (is_no_later host q) prices ≡ true
    → all (is_no_later host p) prices ≡ true
none_later host p q [] order h none_is = refl
none_later host p q (r ∷ prices) order h none_is =
    let first : host.is_later r.effective_from q.effective_from ≡ false = ground (arith, none_is) in
    let later = order.transitive r.effective_from q.effective_from p.effective_from first h in
    ground (arith, later, none_later host p q prices order h (ground (arith, none_is)))

abbrev later_of : Host → ModelPrice → Option ModelPrice → ModelPrice
later_of host p none = p
later_of host p (some q) = if host.is_later q.effective_from p.effective_from then q else p

head-place :
    (host : Host) (p : ModelPrice) (prices : List ModelPrice)
    → head? (place host p prices) ≡ some (later_of host p (head? prices))
head-place host p [] = refl
head-place host p (q ∷ prices) =
    elim (Bool-cases (host.is_later q.effective_from p.effective_from)) [
      | inl later ↦ rw later refl
      | inr sooner ↦ rw sooner refl
    ]

-- The first of the sorted prices: it has what all the prices have, and none is later.
abbrev IsFirst : Host → (ModelPrice → Bool) → List ModelPrice → Option ModelPrice → Type 0
IsFirst host P prices none = prices ≡ []
IsFirst host P prices (some p) = (P p ≡ true) × (all (is_no_later host p) prices ≡ true)

is_not_later_self :
    (host : Host) (q : ModelPrice)
    → IsOrder host.is_later
    → host.is_later q.effective_from q.effective_from ≡ false
is_not_later_self host q order =
    elim (Bool-cases (host.is_later q.effective_from q.effective_from)) [
      | inl later ↦ order.asymmetric q.effective_from q.effective_from later
      | inr not_later ↦ not_later
    ]

later_of-IsFirst :
    (host : Host) (P : ModelPrice → Bool) (q : ModelPrice) (prices : List ModelPrice)
    (first : Option ModelPrice)
    → IsOrder host.is_later
    → P q ≡ true
    → IsFirst host P prices first
    → IsFirst host P (q ∷ prices) (some (later_of host q first))
later_of-IsFirst host P q prices none order has h =
    let self = is_not_later_self host q order in (has, rw (h, self) refl)
later_of-IsFirst host P q prices (some r) order has (r_has, none_is) =
    elim (Bool-cases (host.is_later r.effective_from q.effective_from)) [
      | inl later ↦
          let same : some r ≡ some (later_of host q (some r)) = rw later refl in
          subst (IsFirst host P (q ∷ prices)) same (
            r_has,
            ground (arith, order.asymmetric r.effective_from q.effective_from later, none_is),
          )
      | inr sooner ↦
          let same : some q ≡ some (later_of host q (some r)) = rw sooner refl in
          let self = is_not_later_self host q order in
          subst (IsFirst host P (q ∷ prices)) same
            (has, ground (arith, self, none_later host q r prices order sooner none_is))
    ]

newest_first-IsFirst :
    (host : Host) (P : ModelPrice → Bool) (prices : List ModelPrice)
    → IsOrder host.is_later
    → all P prices ≡ true
    → IsFirst host P prices (head? (newest_first host prices))
newest_first-IsFirst host P [] order h = refl
newest_first-IsFirst host P (q ∷ prices) order h =
    subst (IsFirst host P (q ∷ prices)) (sym (head-place host q (newest_first host prices))) (
      later_of-IsFirst host P q prices (head? (newest_first host prices)) order (ground (arith, h))
        (newest_first-IsFirst host P prices order (ground (arith, h))))

all-filter : (P : ModelPrice → Bool) (prices : List ModelPrice) → all P (filter P prices) ≡ true
all-filter P [] = refl
all-filter P (q ∷ prices) = elim (Bool-cases (P q)) [
  | inl has ↦ rw (has, has) (all-filter P prices)
  | inr lacks ↦ rw lacks (all-filter P prices)
]

all_of-filter :
    (P R : ModelPrice → Bool) (prices : List ModelPrice)
    → all R (filter P prices) ≡ all (λ q. not (P q) || R q) prices
all_of-filter P R [] = refl
all_of-filter P R (q ∷ prices) = elim (Bool-cases (P q)) [
  | inl has ↦ rw (has, all_of-filter P R prices) refl
  | inr lacks ↦ rw lacks (all_of-filter P R prices)
]

none_in-filter :
    (P : ModelPrice → Bool) (prices : List ModelPrice) → filter P prices ≡ [] → any P prices ≡ false
none_in-filter P [] h = refl
none_in-filter P (q ∷ prices) h = elim (Bool-cases (P q)) [
  | inl has ↦ let never : q ∷ filter P prices ≡ [] = rw has at h in absurd cc
  | inr lacks ↦ rw lacks (none_in-filter P prices (rw lacks at h))
]

-- What was found among the prices.
abbrev pub IsFound : Host → String → ℕ → List ModelPrice → Option ModelPrice → Type 0
IsFound host model at prices none = any (is_applicable host model at) prices ≡ false
IsFound host model at prices (some p) =
    (is_applicable host model at p ≡ true)
    × (all (λ q. not (is_applicable host model at q) || is_no_later host p q) prices ≡ true)

first-IsFound :
    (host : Host) (model : String) (at : ℕ) (prices : List ModelPrice) (found : Option ModelPrice)
    → IsFirst host (is_applicable host model at) (filter (is_applicable host model at) prices) found
    → IsFound host model at prices found
first-IsFound host model at prices none h = none_in-filter (is_applicable host model at) prices h
first-IsFound host model at prices (some p) (has, none_is) =
    (has, sym (all_of-filter (is_applicable host model at) (is_no_later host p) prices) ∙ none_is)

-- The price that is found for a model at a moment is one of this model that is in force by then, and no
-- other such price took effect later; none is found only if the list has no such price. The order of
-- the texts of dates is assumed to be one.
pub find_model_price-IsFound :
    (host : Host) (model : String) (at : ℕ) (prices : List ModelPrice)
    → IsOrder host.is_later
    → IsFound host model at prices (find_model_price host model at prices)
unfolding find_model_price
find_model_price-IsFound host model at prices order =
    first-IsFound host model at prices (find_model_price host model at prices) (
      newest_first-IsFirst host (is_applicable host model at)
        (filter (is_applicable host model at) prices) order
        (all-filter (is_applicable host model at) prices))
