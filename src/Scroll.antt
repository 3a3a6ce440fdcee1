-- ===== src/Scroll.antt =====
-- packages/tui/src/runtime/scroll.ts: which rows of the chat are in the window. An offset below 0
-- counts as 0 in the source, so offsets are natural numbers; so are heights.
mod Tests
use phus.Prelude.{
  ℕ, zero, suc, ◌+◌, ◌-◌, ◌≤◌, ◌<◌, String, ◌≡◌, refl, ap, ◌∙◌, ◌⊎◌, inl, inr, Bool, true, false,
  ◌||◌, Option, none, some, List, [], ◌∷◌, ◌++◌, arith, leb, ◌==◌, if◌then◌else◌, not_leb→lt,
  leb→le, Bool-cases, length, take, length-append, take-eq_of_le,
}

pub record ScrollPosition : Type 0 where
  pub start_index : ℕ
  pub skip_rows : ℕ
  pub total_rows : ℕ

-- `itemHeights.reduce((a, h) => a + h, 0)`
abbrev pub sum : List ℕ → ℕ
sum [] = 0
sum (h ∷ hs) = h + sum hs

-- `itemHeights[i] ?? 0`
abbrev pub height_at : List ℕ → ℕ → ℕ
height_at [] i = 0
height_at (h ∷ hs) zero = h
height_at (h ∷ hs) (suc i) = height_at hs i

-- The loop, with `i` items left above and `rows` counted from the bottom.
unfoldable scan_up : List ℕ → ℕ → ℕ → ℕ → ℕ → ScrollPosition
scan_up heights want total zero rows = record { start_index = 0; skip_rows = 0; total_rows = total }
scan_up heights want total (suc i) rows =
    let rows' = rows + height_at heights i in
    let further = scan_up heights want total i rows' in
    if leb want rows'
    then record { start_index = i; skip_rows = rows' - want; total_rows = total }
    else further

unfoldable pub bottom_anchored_slice : {A : Type 0} → List A → List ℕ → ℕ → ℕ → ScrollPosition
unfolding scan_up
bottom_anchored_slice items item_heights height offset =
    let total = sum item_heights in
    if leb height 0 || ((length items == 0) || leb total height)
    then record { start_index = 0; skip_rows = 0; total_rows = total }
    else scan_up item_heights (height + offset) total (length items) 0

-- `separator.padEnd(width, " ")` is given as `rule`; nothing where the separator is empty.
abbrev pub lead : Option String → ℕ → List String
lead none i = []
lead (some rule) zero = []
lead (some rule) (suc i) = rule ∷ []

abbrev pub lead_heights : Option String → ℕ → List ℕ
lead_heights none i = []
lead_heights (some rule) zero = []
lead_heights (some rule) (suc i) = 1 ∷ []

-- The items from the i-th on.
unfoldable flatten_from :
    {A : Type 0} → (A → List String) → Option String → ℕ → List A → List String × List ℕ
flatten_from render rule i [] = ([], [])
flatten_from render rule i (item ∷ items) =
    let (rows, heights) = flatten_from render rule (suc i) items in
    (lead rule i ++ (render item ++ rows), lead_heights rule i ++ length (render item) ∷ heights)

unfoldable pub flatten_item_rows :
    {A : Type 0} → List A → (A → List String) → Option String → List String × List ℕ
unfolding flatten_from
flatten_item_rows items render rule = flatten_from render rule 0 items

sum-take :
    (heights : List ℕ) (i : ℕ)
    → sum (take (suc i) heights) ≡ sum (take i heights) + height_at heights i
sum-take [] zero = omega arith
sum-take [] (suc i) = omega arith
sum-take (h ∷ hs) zero = omega arith
sum-take (h ∷ hs) (suc i) = omega (arith, sum-take hs i)

-- A position has the rows above the window's top edge before it.
pub record IsTopEdge (heights : List ℕ) (want : ℕ) (p : ScrollPosition) : Type 0 where
  pub above : sum (take p.start_index heights) + p.skip_rows ≡ sum heights - want
  pub total : p.total_rows ≡ sum heights
  pub inside : (p.skip_rows < height_at heights p.start_index) ⊎ (p.skip_rows ≡ 0)

scan_up-IsTopEdge :
    (heights : List ℕ) (want i rows : ℕ)
    → rows + sum (take i heights) ≡ sum heights
    → rows < want
    → IsTopEdge heights want (scan_up heights want (sum heights) i rows)
unfolding scan_up
scan_up-IsTopEdge heights want zero rows e lt = record {
  above = omega (arith, e, lt);
  total = refl;
  inside = inr refl;
}
scan_up-IsTopEdge heights want (suc i) rows e lt =
    elim (Bool-cases (leb want (rows + height_at heights i))) [
      | inl t ↦
          let le = leb→le want (rows + height_at heights i) t in
          rw (scan_up, t)
            (record {
              above = omega (arith, e, sum-take heights i, le);
              total = refl;
              inside = inl (omega (arith, lt, le));
            })
      | inr f ↦
          rw (scan_up, f)
            (scan_up-IsTopEdge heights want i (rows + height_at heights i)
              (omega (arith, e, sum-take heights i))
              (not_leb→lt want (rows + height_at heights i) f))
    ]

sum-empty : (heights : List ℕ) → length heights ≡ 0 → sum heights ≡ 0
sum-empty [] e = refl
sum-empty (h ∷ hs) e = absurd (omega (arith, e))

fits-le :
    (b c : Bool) (total height : ℕ)
    → (b || (c || leb total height)) ≡ true
    → (b ≡ true → total ≡ 0)
    → (c ≡ true → total ≡ 0)
    → total ≤ height
fits-le true c total height t h k = omega (arith, h refl)
fits-le false true total height t h k = omega (arith, k refl)
fits-le false false total height t h k = leb→le total height t

-- With a height for each item and a window of at least one row, the position has above it exactly
-- the rows that are neither in the window nor scrolled away below it, all of them skipped whole but
-- for a part of the item that it names.
pub bottom_anchored_slice-IsTopEdge :
    {A : Type 0} (items : List A) (item_heights : List ℕ) (height offset : ℕ)
    → length items ≡ length item_heights
    → 0 < height
    → IsTopEdge item_heights
        (height + offset)
        (bottom_anchored_slice items item_heights height offset)
unfolding bottom_anchored_slice
bottom_anchored_slice-IsTopEdge items item_heights height offset same pos =
    elim (Bool-cases (leb height 0 || ((length items == 0) || leb (sum item_heights) height))) [
      | inl t ↦
          let small : sum item_heights ≤ height =
            fits-le (leb height 0) (length items == 0) (sum item_heights) height t
              (λ z. absurd (omega (arith, leb→le height 0 z)))
              (λ z. sum-empty item_heights (ground (arith, z))) in
          rw t (record { above = omega (arith, small); total = refl; inside = inr refl })
      | inr f ↦
          let all_items : take (length items) item_heights ≡ item_heights =
            take-eq_of_le (length items) item_heights (omega arith) in
          rw f (
            scan_up-IsTopEdge item_heights (height + offset) (length items) 0
              (ap (λ hs. 0 + sum hs) all_items
                ∙ (let z : 0 + sum item_heights ≡ sum item_heights = omega arith in z))
              (omega arith))
    ]

sum-append : (xs ys : List ℕ) → sum (xs ++ ys) ≡ sum xs + sum ys
sum-append [] ys = omega arith
sum-append (x ∷ xs) ys = omega (arith, sum-append xs ys)

lead-sum : (rule : Option String) (i : ℕ) → length (lead rule i) ≡ sum (lead_heights rule i)
lead-sum none i = refl
lead-sum (some rule) zero = refl
lead-sum (some rule) (suc i) = omega arith

flatten_from-sum :
    {A : Type 0} (render : A → List String) (rule : Option String) (i : ℕ) (items : List A)
    → length (flatten_from render rule i items).0 ≡ sum (flatten_from render rule i items).1
unfolding flatten_from
flatten_from-sum render rule i [] = refl
flatten_from-sum render rule i (item ∷ items) =
    let (rows, heights) = flatten_from render rule (suc i) items in
    omega (
      arith,
      length-append (lead rule i) (render item ++ rows),
      length-append (render item) rows,
      sum-append (lead_heights rule i) (length (render item) ∷ heights),
      lead-sum rule i,
      flatten_from-sum render rule (suc i) items,
    )

-- The heights add up to the number of rows.
flatten_item_rows-sum :
    {A : Type 0} (items : List A) (render : A → List String) (rule : Option String)
    → length (flatten_item_rows items render rule).0 ≡ sum (flatten_item_rows items render rule).1
unfolding flatten_item_rows
flatten_item_rows-sum items render rule = flatten_from-sum render rule 0 items
