-- ===== src/Prelude.antt =====
-- The names that the models share: the libraries', passed on, and those of the children.
-- It models no code of its own.
mod Numbers
mod Results
mod Lists
mod ByteStrings
mod Chains
pub use Numbers.*
pub use Results.*
pub use Lists.*
unfoldable pub use Chains.{apply_all}
pub use Chains.{nest, apply_all-reverse, apply_all-nest}
unfoldable pub use ByteStrings.{beq, index_byte, lookup, insert}
pub use ByteStrings.{
  Bytes, bytes, beq_iff, beq_refl, Lacks, index_byte-append, IsFresh, insert-fresh, lookup-insert,
}
pub use Prim.Native.Nat.{ℕ, zero, suc, ◌+◌, ◌-◌, ◌*◌, ◌/◌, ◌%◌, ◌^◌, ◌≤◌, ◌<◌}
pub use mathlib.Core.Path.{◌≡◌, refl, sym, ap, ◌∙◌, subst}
pub use mathlib.Core.Logic.{◌≢◌, ◌↔◌, ◌⊎◌, inl, inr}
pub use mathlib.Core.Bool.{Bool, true, false, not, ◌&&◌, ◌||◌}
pub use mathlib.Core.Option.{Option, none, some}
pub use mathlib.Core.List.{List, [], ◌∷◌, ◌++◌, map, append-nil, append_assoc}
pub use native.Mathlib.Omega.{arith}
