-- ===== src/Prelude.antt =====
-- The names that the other modules share: the libraries', passed on, and those of the children.
mod Tests
mod Lists
mod Tables
mod Maps
mod Texts
pub use Tests.*
pub use Lists.*
pub use Tables.*
pub use Maps.*
pub use Texts.{
  Text, codes, text_eq, text_eq_iff, is_space, IsWord, split-join_words, partition, starts_with,
  split_on, push_code, split_on-plain, split_on-append, drop,
}
unfoldable pub use Texts.{split, join_words}
pub use Prim.Native.Nat.{ℕ, zero, suc, ◌+◌, ◌-◌, ◌*◌, ◌/◌, ◌%◌, ◌^◌, ◌≤◌, ◌<◌, max, min}
pub use Prim.Native.String.{String}
pub use mathlib.Core.Path.{◌≡◌, refl, sym, ap, ◌∙◌, subst}
pub use mathlib.Core.Logic.{◌≢◌, ◌↔◌, ◌⊎◌, inl, inr}
pub use mathlib.Core.Bool.{Bool, true, false, ◌&&◌, ◌||◌}
pub use mathlib.Core.Option.{Option, none, some}
pub use mathlib.Core.List.{List, [], ◌∷◌, ◌++◌, map, append-nil, append_assoc}
pub use native.Mathlib.Omega.{arith}
pub use text.Mathlib.Text.{◌==◌ as str_eq, get?}
pub use Prim.Native.String.{◌++◌ as str_append, count as str_len}
pub use text.Mathlib.TextEquality.{eq_iff as str_eq_iff}
