-- ===== src/Scroll/Tests.antt =====
-- The window of the chat at concrete items.
use phus.Prelude.{◌+◌, String, ◌≡◌, refl, List, [], ◌∷◌, arith}
use phus.Scroll.{bottom_anchored_slice, IsTopEdge, bottom_anchored_slice-IsTopEdge}

abbrev two_items : List String
two_items = "a" ∷ "b" ∷ []

-- Of eight rows the window shows three above the last one.
cuts_an_item :
    bottom_anchored_slice two_items (5 ∷ 3 ∷ []) 3 1
    ≡ record { start_index = 0; skip_rows = 4; total_rows = 8 }
unfolding bottom_anchored_slice
cuts_an_item = refl

bottom_anchored_slice-IsTopEdge_example :
    IsTopEdge (5 ∷ 3 ∷ []) (3 + 1) (bottom_anchored_slice two_items (5 ∷ 3 ∷ []) 3 1)
bottom_anchored_slice-IsTopEdge_example =
    bottom_anchored_slice-IsTopEdge two_items (5 ∷ 3 ∷ []) 3 1 refl (omega arith)
