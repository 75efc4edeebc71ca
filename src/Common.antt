-- ===== src/Common.antt =====
-- The names that the other modules share: the libraries', passed on, and those of the children.
mod Tests
mod Lists
mod Bytes
mod Streams
pub mod Map
pub mod Utf8
pub use Tests.*
pub use Lists.*
pub use Streams.*
pub use Bytes.{length-bytes, word-bytes, word-append}
pub use Map.{
  Key, Text, text_key, nat_key, text_same_iff, lookup-insert, lookup-remove, contains-none,
  contains-some, same_refl,
}
unfoldable pub use Map.{text_same, text_before, lookup, insert, remove, contains}
unfoldable pub use Bytes.{word, bytes}
unfoldable pub use Utf8.{to_utf8, from_utf8}
pub use Utf8.{IsAscii, to_utf8-IsAscii}
pub use Prim.Native.Nat.{ℕ, zero, suc, ◌+◌, ◌-◌, ◌*◌, ◌/◌, ◌%◌, ◌^◌, ◌≤◌, ◌<◌, min}
pub use mathlib.Core.Path.{◌≡◌, refl, sym, ap, ◌∙◌, subst}
pub use mathlib.Core.Logic.{◌≢◌, ◌⊎◌, inl, inr}
pub use mathlib.Core.Bool.{Bool, true, false, not, ◌&&◌, ◌||◌}
pub use mathlib.Core.Option.{Option, none, some}
pub use mathlib.Core.List.{List, [], ◌∷◌, ◌++◌, map, append_assoc, append-nil}
pub use native.Mathlib.Omega.{arith}
