-- ===== src/Signature/Equality.antt =====
-- The comparison in constant time is equality.
use Prim.Native.Nat.{bit_or, bit_xor}
use native.Mathlib.Nat.{mod-eq_of_lt}
use self_consistency_answer.Common.{
  ℕ, zero, suc, ◌+◌, ◌<◌, max, ◌≡◌, ◌↔◌, refl, ap, sym, subst, ◌∙◌, arith, true, [], ◌∷◌, length,
  ◌==◌, ==_iff, if◌then◌else◌,
}
use self_consistency_answer.Signature.{Text, code_at, wrapped_code, scan, constant_time_equals}
use self_consistency_answer.Signature.Bits.{bit_or_zero, bit_xor_zero, bit_xor_self}

agree_from :
    (a b : Text) (left index : ℕ)
    → wrapped_code a index ≡ wrapped_code b index
    → ((i : ℕ) → i < left → wrapped_code a (suc index + i) ≡ wrapped_code b (suc index + i))
    → (i : ℕ) → i < suc left
    → wrapped_code a (index + i) ≡ wrapped_code b (index + i)
agree_from a b left index here later zero below =
    subst (λ j. wrapped_code a j ≡ wrapped_code b j) (omega arith) here
agree_from a b left index here later (suc i) below =
    subst (λ j. wrapped_code a j ≡ wrapped_code b j) (omega arith) (later i (omega (arith, below)))

scan_zero :
    (a b : Text) (left index difference : ℕ)
    → scan a b left index difference ≡ 0
    → (difference ≡ 0)
      × ((i : ℕ) → i < left → wrapped_code a (index + i) ≡ wrapped_code b (index + i))
unfolding scan
scan_zero a b zero index difference h = (h, λ i below. absurd (omega (arith, below)))
scan_zero a b (suc left) index difference h =
    let x = bit_xor (wrapped_code a index) (wrapped_code b index) in
    let (clean, later) = scan_zero a b left (suc index) (bit_or difference x) h in
    let (start, here) = bit_or_zero difference x clean in
    (
      start,
      agree_from a b left index (bit_xor_zero (wrapped_code a index) (wrapped_code b index) here)
          later,
    )

scan_self : (a : Text) (left index : ℕ) → scan a a left index 0 ≡ 0
unfolding scan
scan_self a zero index = refl
scan_self a (suc left) index =
    rw (bit_xor_self (wrapped_code a index)) (scan_self a left (suc index))

codes_agree :
    (a b : Text)
    → length a ≡ length b
    → ((i : ℕ) → i < length a → code_at i a ≡ code_at i b)
    → a ≡ b
codes_agree [] [] same h = refl
codes_agree [] (d ∷ b) same h = absurd (omega (arith, same))
codes_agree (c ∷ a) [] same h = absurd (omega (arith, same))
codes_agree (c ∷ a) (d ∷ b) same h =
    let rest =
      codes_agree a b (omega (arith, same)) (λ i below. h (suc i) (omega (arith, below))) in
    rw (h 0 (omega arith), rest) refl

wrapped_inside : (a : Text) (i : ℕ) → i < length a → wrapped_code a i ≡ code_at i a
wrapped_inside a i h = ap (λ j. code_at j a) (mod-eq_of_lt (omega (arith, h)))

equal_of_true : (a b : Text) → constant_time_equals a b ≡ true → a ≡ b
unfolding constant_time_equals
equal_of_true a b h =
    let span : ℕ = max (max (length a) (length b)) 1 in
    let difference : ℕ = if length a == length b then 0 else 1 in
    let zero_left : scan a b span 0 difference ≡ 0 = (==_iff (scan a b span 0 difference) 0).0 h in
    let (start, agree) = scan_zero a b span 0 difference zero_left in
    let same : length a ≡ length b = ground (arith, start) in
    codes_agree a b same (λ i below.
      sym (wrapped_inside a i below)
      ∙ subst (λ j. wrapped_code a j ≡ wrapped_code b j) (omega arith)
          (agree i (omega (arith, below)))
      ∙ wrapped_inside b i (omega (arith, below, same)))

true_of_self : (a : Text) → constant_time_equals a a ≡ true
unfolding constant_time_equals
true_of_self a =
    let same : length a == length a ≡ true = ground arith in
    rw same (rw (scan_self a (max (max (length a) (length a)) 1) 0) refl)

-- Two texts compare equal in constant time exactly if they are equal, whatever their lengths are,
-- the empty text included.
pub constant_time_equals_iff : (a b : Text) → (constant_time_equals a b ≡ true) ↔ (a ≡ b)
constant_time_equals_iff a b =
    (equal_of_true a b, λ same. subst (λ c. constant_time_equals a c ≡ true) same (true_of_self a))
