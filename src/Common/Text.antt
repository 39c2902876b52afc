-- ===== src/Common/Text.antt =====
-- Go's `string`: equality, the empty text and `strings.HasPrefix`.
use Prim.Native.String.{◌++◌}
use text.Mathlib.TextEquality.{starts_with_iff}
use text.Mathlib.TextLemmas.{prefix-append}
use subsyncd.Common.{◌≡◌, true}
pub use Prim.Native.String.{String}
pub use text.Mathlib.Text.{◌==◌ as str_eq, starts_with}
pub use text.Mathlib.TextEquality.{eq_iff}

infixl 65 ◌<+>◌
-- Concatenation, `+` in Go.
abbrev pub ◌<+>◌ : String → String → String
s <+> t = s ++ t

pub starts_with-append : (s t : String) → starts_with (s <+> t) s ≡ true
starts_with-append s t = (starts_with_iff (s <+> t) s).1 (prefix-append s t)
