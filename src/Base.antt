-- ===== src/Base.antt =====
-- The names that the other modules share: the libraries' and those of the children.
mod Tests
mod Equality
mod Lists
mod Sets
mod Sums
pub use Tests.*
pub use Equality.*
pub use Lists.*
unfoldable pub use Sums.{sum_below}
pub use Sums.{
  set_at, set_at_self, set_at_other, sum_below-set_at, sum_below-zero, sum_below-le, sum_below-eq,
  sum_below_change, sum_below_window, sum_below_pos,
}
pub use Sets.{
  length-to_set-le, contains-to_set, contains-erase_ne, contains-erase_self, erase-Distinct,
  snoc-Distinct, length-without, without,
}
unfoldable pub use Sets.{erase, to_set}
pub use Prim.Native.Nat.{ℕ, zero, suc, ◌+◌, ◌-◌, ◌*◌, ◌/◌, ◌%◌, ◌^◌, ◌≤◌, ◌<◌, min, max}
pub use Prim.Native.String.{String}
pub use mathlib.Core.Path.{◌≡◌, refl, sym, ap, ◌∙◌, ◌≡⟨◌⟩◌, ◌∎}
pub use mathlib.Core.Logic.{◌≢◌, ◌↔◌, ◌⊎◌, inl, inr}
pub use mathlib.Core.Bool.{Bool, true, false, not, ◌&&◌, ◌||◌}
pub use mathlib.Core.Option.{Option, none, some}
pub use mathlib.Core.List.{List, [], ◌∷◌, ◌++◌, map, append_assoc, append-nil}
pub use native.Mathlib.Omega.{arith}
