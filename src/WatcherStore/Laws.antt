-- ===== src/WatcherStore/Laws.antt =====
-- What an accepted upsert of the memory store leaves for a Get of its key.
use semantic_intelligence_la.Base.Dict.{lookup, insert, lookup-insert_self}
use semantic_intelligence_la.Storage.JsonLines.{background, of_option}
use semantic_intelligence_la.WatcherStore.{
  WatcherState, normalize_watcher_state, validate_watcher_state, accept, accept_key,
  MemoryWatcherStateStore, memory_upsert, memory_get,
}
use mathlib.Core.Path.{subst}
use semantic_intelligence_la.Base.{
  Text, codes, trim_space, is_blank, required, not_found, Result, ok, err, fail_if, Result-cases,
  Meets, fail_if-Meets, Meets-then, Meets-eq-ok, Meets-const, is_blank-trim_space, ◌≡◌, refl, sym,
  ap, ◌∙◌, inl, inr, false,
}

-- a state that is stored has a key, and is stored normalized
abbrev IsAccepted : WatcherState → WatcherState → Type 0
IsAccepted state stored = (is_blank state.key ≡ false) × (stored ≡ normalize_watcher_state state)

validate-Meets : (s : WatcherState) → Meets (λ _. is_blank s.key ≡ false) (validate_watcher_state s)
unfolding validate_watcher_state
validate-Meets s =
    let Named : Type 0 = is_blank s.key ≡ false in
    Meets-then (λ _. Named) (λ _. Named) (fail_if (is_blank s.key) (required (codes "key"))) _
      (fail_if-Meets (is_blank s.key) (required (codes "key")))
      (λ v named. Meets-const Named _ named)

accept-Meets : (state : WatcherState) → Meets (IsAccepted state) (accept background state)
unfolding accept normalize_watcher_state
accept-Meets state =
    let normal = normalize_watcher_state state in
    Meets-then (λ _. is_blank normal.key ≡ false) (IsAccepted state) (validate_watcher_state normal)
      _ (validate-Meets normal) (λ v named. (sym (is_blank-trim_space state.key) ∙ named, refl))

-- what an upsert that answers ok leaves for a Get of the state's key
abbrev pub IsKept :
    {S : Type 0} → (S → Text → Result WatcherState) → WatcherState → S × Result (Unit {0}) → Type 0
IsKept get state (later, ok v) = get later state.key ≡ ok (normalize_watcher_state state)
IsKept get state (later, err e) = Unit

stored-IsKept :
    (store : MemoryWatcherStateStore) (state stored : WatcherState)
    → IsAccepted state stored
    → memory_get background (insert stored.key stored store) state.key
      ≡ ok (normalize_watcher_state state)
unfolding memory_get accept_key
stored-IsKept store state stored (named, same) =
    let normal = normalize_watcher_state state in
    let at_key : stored.key ≡ trim_space state.key =
      ap (λ (s : WatcherState). s.key) same ∙ (unfold normalize_watcher_state in refl) in
    rw named (
      subst (λ k. of_option not_found (lookup k (insert stored.key stored store)) ≡ ok normal)
        at_key (ap (of_option not_found) (lookup-insert_self stored.key stored store) ∙ ap ok same))

-- If an upsert of the memory store, on a context that is not ended, answers ok, a Get of the key
-- of the state in the store that it leaves returns the state, normalized.
pub memory_upsert-IsKept :
    (store : MemoryWatcherStateStore) (state : WatcherState)
    → IsKept (memory_get background) state (memory_upsert background store state)
unfolding memory_upsert
memory_upsert-IsKept store state = elim (Result-cases (accept background state)) [
  | inl (stored, e) ↦ rw e (
      stored-IsKept store state stored
        (Meets-eq-ok (IsAccepted state) (accept background state) stored (accept-Meets state) e))
  | inr (x, e) ↦ rw e tt
]
