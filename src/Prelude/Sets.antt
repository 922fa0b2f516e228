-- ===== src/Prelude/Sets.antt =====
-- Lists of texts as sets: Go's maps with empty values, and the loops that look for a text.
use Prim.Native.String.{String}
use mathlib.Core.Bool.{Bool, false, ◌||◌}
use mathlib.Core.List.{List, [], ◌∷◌}
use stds_backend_go.Prelude.Tests.{◌==◌}

-- Is the text in the list?
unfoldable pub has : List String → String → Bool
has [] x = false
has (y ∷ ys) x = y == x || has ys x
