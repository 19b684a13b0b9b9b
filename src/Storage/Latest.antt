-- ===== src/Storage/Latest.antt =====
-- A log in which later versions of a key replace earlier ones, read in two ways: a map that is
-- written in place, and a scan that keeps one version of one key.
use semantic_intelligence_la.Base.Dict.{Dict, lookup, insert, lookup-insert}
use semantic_intelligence_la.Storage.JsonLines.{fold_left}
use semantic_intelligence_la.Base.{
  if◌then◌else◌, Bool-cases, Text, eq_text, eq_text_iff, ◌≡◌, refl, ap, inl, inr, Option, some,
  List, [], ◌∷◌,
}

module _ {ℓ} {A : Type ℓ} (key : A → Text) (merge : Option A → A → A) where
  -- one round of the scan for the key `k`
  unfoldable pub keep_latest : Text → Option A → A → Option A
  keep_latest k found a = if eq_text (key a) k then some (merge found a) else found

  -- the map after one write
  abbrev pub write : Dict A → A → Dict A
  write m a = insert (key a) a m

  -- each item wins over the version of its key that is there when it is written
  abbrev pub IsChronological : Dict A → List A → Type ℓ
  IsChronological m [] = Unit
  IsChronological m (a ∷ items) =
      (merge (lookup (key a) m) a ≡ a) × IsChronological (write m a) items

  keep_latest-write :
      (k : Text) (m : Dict A) (a : A)
      → merge (lookup (key a) m) a ≡ a
      → keep_latest k (lookup k m) a ≡ lookup k (write m a)
  unfolding keep_latest
  keep_latest-write k m a wins = rw lookup-insert (elim (Bool-cases (eq_text (key a) k)) [
    | inl same ↦
        let e : key a ≡ k = (eq_text_iff (key a) k).0 same in rw same (ap some (rw e at wins))
    | inr other ↦ rw other refl
  ])

  pub keep_latest-lookup :
      (k : Text) (m : Dict A) (items : List A)
      → IsChronological m items
      → fold_left (keep_latest k) (lookup k m) items ≡ lookup k (fold_left write m items)
  keep_latest-lookup k m [] h = refl
  keep_latest-lookup k m (a ∷ items) (wins, h) =
      rw (keep_latest-write k m a wins) (keep_latest-lookup k (write m a) items h)
