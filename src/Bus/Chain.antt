-- ===== src/Bus/Chain.antt =====
-- The sequence numbers that a list of rows or frames carries, from one position of the log to
-- another: without a gap (`Chain`), or just rising (`Rises`).
use self_consistency_answer.Common.{
  ℕ, suc, ◌≤◌, ◌<◌, ◌≡◌, refl, sym, ap, ◌∙◌, or_else, Option, none, some, List, [], ◌∷◌, ◌++◌,
  subst, arith,
}
use self_consistency_answer.Bus.{Row, Frame, Entry}

module _ {ℓ} {A : Type ℓ} (seq_of : A → Option ℕ) (R : ℕ → ℕ → Type 0) where
  pub data Trail : ℕ → List A → ℕ → Type ℓ where
    done : {a b : ℕ} → a ≡ b → Trail a [] b
    bare : {a b : ℕ} {x : A} {xs : List A} → seq_of x ≡ none → Trail a xs b → Trail a (x ∷ xs) b
    numbered :
        {a b s : ℕ} {x : A} {xs : List A}
        → seq_of x ≡ some s
        → R a s
        → Trail s xs b
        → Trail a (x ∷ xs) b

module _ {ℓ} {A : Type ℓ} {seq_of : A → Option ℕ} {R : ℕ → ℕ → Type 0} where
  pub Trail-append :
      {a b c : ℕ} {xs ys : List A}
      → Trail seq_of R a xs b
      → Trail seq_of R b ys c
      → Trail seq_of R a (xs ++ ys) c
  Trail-append {c} {ys} (done e) t = subst (λ k. Trail seq_of R k ys c) (sym e) t
  Trail-append (bare e h) t = bare e (Trail-append h t)
  Trail-append (numbered e r h) t = numbered e r (Trail-append h t)

  pub Trail-split :
      {a c : ℕ} (xs ys : List A)
      → Trail seq_of R a (xs ++ ys) c
      → (b : ℕ) × Trail seq_of R a xs b × Trail seq_of R b ys c
  Trail-split {a} [] ys t = (a, done refl, t)
  Trail-split (x ∷ xs) ys (bare e t) = let (b, p, q) = Trail-split xs ys t in (b, bare e p, q)
  Trail-split (x ∷ xs) ys (numbered e r t) =
      let (b, p, q) = Trail-split xs ys t in (b, numbered e r p, q)

  pub Trail-end : {a b c : ℕ} {xs : List A} → Trail seq_of R a xs b → b ≡ c → Trail seq_of R a xs c
  Trail-end {a} {xs} t e = subst (λ k. Trail seq_of R a xs k) e t

  -- A relation under which numbers never fall bounds the trail.
  pub Trail-le :
      {a b : ℕ} {xs : List A} → ((m n : ℕ) → R m n → m ≤ n) → Trail seq_of R a xs b → a ≤ b
  Trail-le mono (done e) = omega arith
  Trail-le mono (bare e t) = Trail-le mono t
  Trail-le mono (numbered {a} {s} e r t) = omega (arith, mono a s r, Trail-le mono t)

  -- The numbers of a list fix where the trail ends.
  pub Trail-unique :
      {a b c : ℕ} {xs : List A} → Trail seq_of R a xs b → Trail seq_of R a xs c → b ≡ c
  Trail-unique (done e) (done k) = sym e ∙ k
  Trail-unique (bare e t) (bare k u) = Trail-unique t u
  Trail-unique (bare e t) (numbered k r u) = cc
  Trail-unique (numbered e r t) (bare k u) = cc
  Trail-unique {c = c} {xs = x ∷ xs} (numbered {s = s} e r t) (numbered {s = n} k q u) =
      let both : some n ≡ some s = sym k ∙ e in
      let same : n ≡ s = ap (λ o. or_else o n) both in
      Trail-unique t (subst (λ i. Trail seq_of R i xs c) same u)

abbrev pub IsNext : ℕ → ℕ → Type 0
IsNext a s = s ≡ suc a

abbrev pub row_seq : Row → Option ℕ
row_seq row = some row.seq

abbrev pub frame_seq : Frame → Option ℕ
frame_seq frame = frame.seq

abbrev pub entry_seq : Entry → Option ℕ
entry_seq none = none
entry_seq (some frame) = frame.seq

-- Exactly the numbers a + 1, a + 2, …, b, in this order.
abbrev pub Chain : ℕ → List Frame → ℕ → Type 0
Chain = Trail frame_seq IsNext

-- The same of the entries of a stream.
abbrev pub Flow : ℕ → List Entry → ℕ → Type 0
Flow = Trail entry_seq IsNext

-- Numbers that rise strictly, above a and up to b.
abbrev pub Rises : ℕ → List Frame → ℕ → Type 0
Rises = Trail frame_seq ◌<◌

pub IsNext-mono : (m n : ℕ) → IsNext m n → m ≤ n
IsNext-mono m n e = omega arith

pub lt_mono : (m n : ℕ) → m < n → m ≤ n
lt_mono m n h = omega arith
