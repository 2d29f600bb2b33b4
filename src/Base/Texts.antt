-- ===== src/Base/Texts.antt =====
-- Characters and bytes of a text.
use Prim.Native.Nat.{◌≤◌}
use Prim.Native.String.len
use Prim.Native.String.count
use Prim.Native.String.{String, [], ◌∷◌, len, count}
use mathlib.Core.Path.{◌≡◌}
use native.Mathlib.Omega.{arith}
use text.Mathlib.TextPositions.{len_utf8-pos}

-- A text has at most as many characters as bytes, since a character has at least one byte.
pub count-len : (s : String) → count s ≤ len s
count-len [] =
    let chars : count [] ≡ 0 = count.nil in let bytes : len [] ≡ 0 = len.nil in omega arith
count-len (c ∷ s) =
    let (k, width) = len_utf8-pos c in
    let chars = count.cons c s in let bytes = len.cons c s in let rest = count-len s in omega arith
