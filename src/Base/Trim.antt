-- ===== src/Base/Trim.antt =====
-- strings.TrimSpace on the bytes of a UTF-8 text: the white space of Unicode at both ends goes.
use grex.Base.Tests.{if◌then◌else◌, leb, ◌==◌}
use grex.Base.Text.{Str}
use Prim.Native.Nat.{ℕ, zero, suc}
use mathlib.Core.Bool.{Bool, ◌&&◌, ◌||◌}
use mathlib.Core.List.{[], ◌∷◌, reverse}
use mathlib.Core.Option.{Option, none, some}
use grex.Base.Lists.{length}

-- The runes of unicode.IsSpace, by the number of their bytes.
abbrev is_space : ℕ → Bool
is_space c = (c == 32) || (leb 9 c && leb c 13)

abbrev is_space2 : ℕ → ℕ → Bool
is_space2 c d = (c == 194) && ((d == 133) || (d == 160))

abbrev is_space3 : ℕ → ℕ → ℕ → Bool
is_space3 c d e =
    ((c == 225) && ((d == 154) && (e == 128)))
    || (((c == 226)
          && ((d == 128)
              && ((leb 128 e && leb e 138) || ((e == 168) || ((e == 169) || (e == 175))))))
        || (((c == 226) && ((d == 129) && (e == 159)))
            || ((c == 227) && ((d == 128) && (e == 128)))))

-- What follows one space at the front; `none` is no space there.
abbrev drop_space : Str → Option Str
drop_space [] = none
drop_space (c ∷ []) = if is_space c then some [] else none
drop_space (c ∷ d ∷ []) =
    if is_space c then some (d ∷ []) else (if is_space2 c d then some [] else none)
drop_space (c ∷ d ∷ e ∷ s) =
    if is_space c
    then some (d ∷ e ∷ s)
    else (if is_space2 c d then some (e ∷ s) else (if is_space3 c d e then some s else none))

-- The same at the end of a text that is written backwards.
abbrev drop_space_back : Str → Option Str
drop_space_back [] = none
drop_space_back (c ∷ []) = if is_space c then some [] else none
drop_space_back (d ∷ c ∷ []) =
    if is_space d then some (c ∷ []) else (if is_space2 c d then some [] else none)
drop_space_back (e ∷ d ∷ c ∷ s) =
    if is_space e
    then some (d ∷ c ∷ s)
    else (if is_space2 d e then some (c ∷ s) else (if is_space3 c d e then some s else none))

-- As long as spaces are found; each takes at least one byte, so the length is fuel enough.
unfoldable pub trim_by : (Str → Option Str) → ℕ → Str → Str
trim_by step zero s = s
trim_by step (suc n) s = elim (step s) [ none ↦ s | some rest ↦ trim_by step n rest ]

unfoldable pub trim_space : Str → Str
trim_space s =
    let left = trim_by drop_space (length s) s in
    reverse (trim_by drop_space_back (length left) (reverse left))
