-- ===== src/Prelude.antt =====
-- The names that all modules share: the libraries', passed on, with the Boolean tests, the lists
-- over native numbers, the equality interface and the word sizes of the program.
mod Tests
mod Lists
mod Words
mod Results
pub mod Maps
pub mod Xor
pub mod Sort
unfoldable pub use Tests.*
pub use Lists.*
unfoldable pub use Words.*
pub use Results.*
pub use Prim.Native.Nat.{ℕ, zero, suc, ◌+◌, ◌-◌, ◌*◌, ◌/◌, ◌%◌, ◌^◌, ◌≤◌, ◌<◌, min, max}
pub use mathlib.Core.Path.{◌≡◌, refl, sym, ap, ap₂, ◌∙◌, ◌≡⟨◌⟩◌, ◌∎}
pub use mathlib.Core.Logic.{◌≢◌, ◌↔◌, ◌⊎◌, inl, inr}
pub use mathlib.Core.Bool.{Bool, true, false, not, ◌&&◌, ◌||◌}
pub use mathlib.Core.Option.{Option, none, some}
pub use mathlib.Core.List.{List, [], ◌∷◌, ◌++◌, map, append-nil, append_assoc}
pub use native.Mathlib.Omega.{arith}
