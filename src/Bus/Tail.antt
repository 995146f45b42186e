-- ===== src/Bus/Tail.antt =====
-- What the live tail delivers of the entries that it reads from the stream.
use native.Mathlib.Nat.{le_refl}
use self_consistency_answer.Common.{
  ℕ, ◌≤◌, ◌<◌, ◌≡◌, refl, inl, inr, List, [], ◌∷◌, arith, none, some, leb, leb→le, Bool-cases,
  Option-cases, max, false,
}
use self_consistency_answer.Bus.{Entry, deliver}
use self_consistency_answer.Bus.Chain.{
  done, bare, numbered, Trail-le, IsNext-mono, Chain, Flow, Rises,
}

leb→lt : (a b : ℕ) → leb a b ≡ false → b < a
leb→lt a b h = ground arith

-- Whatever is read, only numbers above those seen are delivered, and they rise.
pub deliver-Rises :
    (seen : ℕ) (frames : List Entry)
    → let (seen', out) = deliver seen frames in Rises seen out seen'
unfolding deliver
deliver-Rises seen [] = done refl
deliver-Rises seen (none ∷ fs) = deliver-Rises seen fs
deliver-Rises seen (some f ∷ fs) = elim (Option-cases f.seq) [
  | inl e ↦ rw (e, deliver) (bare e (deliver-Rises seen fs))
  | inr (s, e) ↦ elim (Bool-cases (leb s seen)) [
    | inl old ↦ rw (e, old, deliver) (deliver-Rises seen fs)
    | inr new ↦ rw (e, new, deliver) (numbered e (leb→lt s seen new) (deliver-Rises s fs))
  ]
]

-- From entries that run without a gap and start no later than what was seen, the tail delivers
-- exactly what was not seen yet.
pub deliver-Chain :
    {a b : ℕ} (seen : ℕ) (frames : List Entry)
    → a ≤ seen
    → Flow a frames b
    → let (seen', out) = deliver seen frames in Chain seen out seen' × (seen' ≡ max seen b)
unfolding deliver
deliver-Chain seen [] h (done e) = (done refl, omega arith)
deliver-Chain seen (none ∷ fs) h (bare e t) = deliver-Chain seen fs h t
deliver-Chain seen (none ∷ fs) h (numbered e r t) = cc
deliver-Chain seen (some f ∷ fs) h (bare e t) =
    let (chain, top) = deliver-Chain seen fs h t in rw (e, deliver) (bare e chain, top)
deliver-Chain {b} seen (some f ∷ fs) h (numbered {s} e r t) = elim (Bool-cases (leb s seen)) [
  | inl old ↦ rw (e, old, deliver) (deliver-Chain {a = s} seen fs (leb→le s seen old) t)
  | inr new ↦
      let (chain, top) = deliver-Chain {a = s} s fs (le_refl s) t in
      let within : s ≤ b = Trail-le IsNext-mono t in
      rw (e, new, deliver)
        (numbered e (omega (arith, leb→lt s seen new)) chain, omega (arith, leb→lt s seen new))
]
