-- ===== src/Base.antt =====
-- The names that the other modules share: the libraries', passed on, and those of the children.
pub mod Bools
pub mod Lists
pub mod Texts
pub mod Results
pub mod Sort
pub mod Trim
pub mod Blanks
pub mod Times
pub mod Dict
pub use Bools.*
unfoldable pub use Lists.*
unfoldable pub use Texts.*
pub use Results.*
unfoldable pub use Sort.*
pub use Trim.*
pub use Blanks.{is_blank-append, is_blank-join}
pub use Times.*
pub use Prim.Native.Nat.{ℕ, zero, suc, ◌+◌, ◌-◌, ◌*◌, ◌≤◌, ◌<◌}
pub use mathlib.Core.Path.{◌≡◌, refl, sym, ap, ◌∙◌}
pub use mathlib.Core.Logic.{◌≢◌, ◌↔◌, ◌⊎◌, inl, inr}
pub use mathlib.Core.Bool.{Bool, true, false, not, ◌&&◌, ◌||◌}
pub use mathlib.Core.Option.{Option, none, some}
pub use mathlib.Core.List.{List, [], ◌∷◌, ◌++◌, map}
pub use native.Mathlib.Omega.{arith}
