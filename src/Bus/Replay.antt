-- ===== src/Bus/Replay.antt =====
-- What one page of the durable log holds: the rows after the cursor, in order.
use native.Mathlib.Nat.{le_refl}
use self_consistency_answer.Common.{
  ℕ, zero, suc, ◌≤◌, ◌<◌, ◌≡◌, refl, sym, inl, inr, Bool, true, false, some, List, [], ◌∷◌, subst,
  arith, length, filter, ltb, ◌==◌, if◌then◌else◌, take, drop, take-append-drop, Bool-cases,
  Option-cases, All, ltb→lt, ltb→le, ==_iff, max, ap,
}
use self_consistency_answer.Events.{RunEvent}
use self_consistency_answer.Bus.{Row, Frame, parse_rows, list_run_events, advance}
use self_consistency_answer.Bus.Chain.{
  Trail, done, bare, numbered, Trail-split, Trail-end, Trail-le, IsNext, row_seq, frame_seq, Chain,
  Rises, IsNext-mono,
}

-- The payload of a row fits the union.
abbrev pub IsReadable : Row → Type 0
IsReadable row = (event : RunEvent) × (row.payload ≡ some event)

abbrev pub after : ℕ → Row → Bool
after c row = ltb c row.seq

module _ {R : ℕ → ℕ → Type 0} (mono : (m n : ℕ) → R m n → m < n) where
  -- Every row of a trail that starts at or past the cursor is kept.
  filter-Trail_past :
      {a b : ℕ} (c : ℕ) (rows : List Row)
      → c ≤ a
      → Trail row_seq R a rows b
      → filter (after c) rows ≡ rows
  filter-Trail_past c [] h t = refl
  filter-Trail_past c (row ∷ rows) h (bare e t) = cc
  filter-Trail_past {a} c (row ∷ rows) h (numbered {s} e r t) =
      let above = mono a s r in
      let ih = filter-Trail_past {a = s} c rows (omega arith) t in ground (arith, ih)

  module _ (cut : (a c s : ℕ) → R a s → a ≤ c → c < s → R c s) where
    filter-Trail :
        {a b : ℕ} (c : ℕ) (rows : List Row)
        → a ≤ c
        → Trail row_seq R a rows b
        → Trail row_seq R c (filter (after c) rows) (max c b)
    filter-Trail c [] h (done e) = done (omega arith)
    filter-Trail c (row ∷ rows) h (bare e t) = cc
    filter-Trail {a} {b} c (row ∷ rows) h (numbered {s} e r t) =
        let here : row.seq ≡ s = ground arith in
        let past : s ≤ b = Trail-le (λ m n k. omega (arith, mono m n k)) t in
        elim (Bool-cases (ltb c row.seq)) [
          | inl kept ↦
              let above : c < s = omega (arith, ltb→lt c row.seq kept) in
              rw (kept, filter-Trail_past {a = s} c rows (omega arith) t)
                (numbered e (cut a c s r h above) (Trail-end t (omega arith)))
          | inr skipped ↦
              rw skipped (filter-Trail {a = s} c rows (omega (arith, ltb→le c row.seq skipped)) t)
        ]

    -- The rows that the query asks for, before the limit.
    pub window-Trail :
        {b : ℕ} (c : ℕ) (rows : List Row)
        → Trail row_seq R 0 rows b
        → Trail row_seq R c (if c == 0 then rows else filter (after c) rows) (max c b)
    window-Trail {b} c rows t = elim (Bool-cases (c == 0)) [
      | inl zeroed ↦
          let e : c ≡ 0 = (==_iff c 0).0 zeroed in
          rw zeroed
            (subst (λ k. Trail row_seq R k rows (max k b)) (sym e) (Trail-end t (omega arith)))
      | inr positive ↦ rw positive (filter-Trail c rows (omega arith) t)
    ]

pub advance-Trail :
    {R : ℕ → ℕ → Type 0} {a b : ℕ} (frames : List Frame)
    → Trail frame_seq R a frames b
    → advance a frames ≡ b
unfolding advance
advance-Trail [] (done e) = e
advance-Trail (f ∷ fs) (bare e t) = rw e (advance-Trail fs t)
advance-Trail (f ∷ fs) (numbered e r t) = rw e (advance-Trail fs t)

-- Where every row is readable, a page is as gap-free as the rows that it is made of.
parse_rows-Chain :
    {a b : ℕ} (rows : List Row)
    → All IsReadable rows
    → Trail row_seq IsNext a rows b
    → Chain a (parse_rows rows) b × (length (parse_rows rows) ≡ length rows)
unfolding parse_rows
parse_rows-Chain [] h (done e) = (done e, refl)
parse_rows-Chain (row ∷ rows) h (bare e t) = cc
parse_rows-Chain (row ∷ rows) ((event, p), h) (numbered e r t) =
    let (chain, same) = parse_rows-Chain rows h t in rw p (numbered e r chain, ap suc same)

-- Whatever rows are skipped, the numbers of a page rise.
parse_rows-Rises :
    {a b : ℕ} (c : ℕ) (rows : List Row)
    → c ≤ a
    → Trail row_seq ◌<◌ a rows b
    → Rises c (parse_rows rows) (advance c (parse_rows rows))
unfolding parse_rows advance
parse_rows-Rises c [] h (done e) = done refl
parse_rows-Rises c (row ∷ rows) h (bare e t) = cc
parse_rows-Rises {a} c (row ∷ rows) h (numbered {s} e r t) =
    let here : row.seq ≡ s = ground arith in
    elim (Option-cases row.payload) [
      | inl unread ↦ rw unread (parse_rows-Rises {a = s} c rows (omega arith) t)
      | inr (event, p) ↦
          rw p (numbered refl (omega arith) (parse_rows-Rises {a = s} row.seq rows (omega arith) t))
    ]

drop_of_short_take {ℓ} :
    {A : Type ℓ} (n : ℕ) (xs : List A) → length (take n xs) < n → drop n xs ≡ []
drop_of_short_take zero xs h = absurd (omega arith)
drop_of_short_take (suc n) [] h = refl
drop_of_short_take (suc n) (x ∷ xs) h = drop_of_short_take n xs (omega arith)

module _ {ℓ κ} {A : Type ℓ} (P : A → Type κ) where
  All-take : (n : ℕ) (xs : List A) → All P xs → All P (take n xs)
  All-take zero xs h = tt
  All-take (suc n) [] h = tt
  All-take (suc n) (x ∷ xs) (p, h) = (p, All-take n xs h)

  All-filter : (keep : A → Bool) (xs : List A) → All P xs → All P (filter keep xs)
  All-filter keep [] h = tt
  All-filter keep (x ∷ xs) (p, h) = ground (arith, All-filter keep xs h)

  All-window :
      (b : Bool) (keep : A → Bool) (xs : List A)
      → All P xs
      → All P (if b then xs else filter keep xs)
  All-window true keep xs h = h
  All-window false keep xs h = All-filter keep xs h

Trail-nil : {a b : ℕ} {R : ℕ → ℕ → Type 0} → Trail row_seq R a [] b → a ≡ b
Trail-nil (done e) = e

-- A page out of rows that run without a gap from c to n.
page-Chain :
    {n : ℕ} (c k : ℕ) (asked : List Row)
    → All IsReadable asked
    → Trail row_seq IsNext c asked n
    → let page = parse_rows (take k asked) in
      (b : ℕ) × Chain c page b × (b ≤ n) × (ltb (length page) k ≡ true → b ≡ n)
page-Chain {n} c k asked readable t =
    let (b, first, rest) =
      Trail-split (take k asked) (drop k asked) (rw (take-append-drop k asked) t) in
    let (chain, same) =
      parse_rows-Chain (take k asked) (All-take IsReadable k asked readable) first in
    (
      b,
      chain,
      Trail-le IsNext-mono rest,
      λ short. Trail-nil (
          subst (λ xs. Trail row_seq IsNext b xs n)
            (drop_of_short_take k asked (rw same at (ltb→lt _ k short))) rest),
    )

IsNext-lt : (m n : ℕ) → IsNext m n → m < n
IsNext-lt m n e = omega arith

IsNext-cut : (a c s : ℕ) → IsNext a s → a ≤ c → c < s → IsNext c s
IsNext-cut a c s e p q = omega arith

lt_lt : (m n : ℕ) → m < n → m < n
lt_lt m n h = h

lt_cut : (a c s : ℕ) → a < s → a ≤ c → c < s → c < s
lt_cut a c s e p q = q

-- A page after a cursor within the log continues it without a gap, and a page that is not full
-- reaches the end of the log.
pub list_run_events-Chain :
    {n : ℕ} (c k : ℕ) (rows : List Row)
    → c ≤ n
    → All IsReadable rows
    → Trail row_seq IsNext 0 rows n
    → let page = list_run_events c k rows in
      (b : ℕ) × Chain c page b × (b ≤ n) × (ltb (length page) k ≡ true → b ≡ n)
unfolding list_run_events
list_run_events-Chain c k rows h readable t =
    page-Chain c k _ (All-window IsReadable (c == 0) (after c) rows readable)
      (Trail-end (window-Trail IsNext-lt IsNext-cut c rows t) (omega arith))

-- Whatever the cursor and the rows that do not parse, the numbers of a page rise above the cursor.
pub list_run_events-Rises :
    {n : ℕ} (c k : ℕ) (rows : List Row)
    → Trail row_seq ◌<◌ 0 rows n
    → let page = list_run_events c k rows in Rises c page (advance c page)
unfolding list_run_events
list_run_events-Rises {n} c k rows t =
    let asked = if c == 0 then rows else filter (after c) rows in
    let (b, first, rest) =
      Trail-split {c = max c n} (take k asked) (drop k asked)
        (rw (take-append-drop k asked) (window-Trail lt_lt lt_cut c rows t)) in
    parse_rows-Rises {a = c} c (take k asked) (le_refl c) first
