-- ===== src/Storage/Filters.antt =====
-- The tests that the `matches` functions of the stores make of one field and of the time window.
use semantic_intelligence_la.Base.Times.{Time, before, after}
use semantic_intelligence_la.Base.{
  Text, CharTables, trim_space, is_blank, equal_fold, Bool, false, not, ◌&&◌, ◌||◌, Option, none,
  some,
}

-- the two tests on the window
unfoldable pub in_window : Option Time → Option Time → Time → Bool
in_window from to t =
    not (elim from [ none ↦ false | some f ↦ before t f ])
    && not (elim to [ none ↦ false | some l ↦ after t l ])

module _ ⦃u : CharTables⦄ where
  -- one test of `matches`: an empty filter passes all
  unfoldable pub field_matches : Text → Text → Bool
  field_matches filter value = is_blank filter || equal_fold (trim_space value) (trim_space filter)
