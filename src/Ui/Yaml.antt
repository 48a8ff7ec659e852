-- ===== src/Ui/Yaml.antt =====
-- yamlDisplay and gcd of internal/ui/ui.go. The text is valid UTF-8, so a rune begins at each byte
-- that is no continuation byte.
pub mod Laws
use grex.Base.{
  ℕ, zero, suc, ◌+◌, ◌-◌, ◌*◌, ◌/◌, ◌%◌, Bool, true, false, not, ◌&&◌, ◌||◌, List, [], ◌∷◌, ◌++◌,
  Str, text, map, if◌then◌else◌, ltb, leb, ◌==◌, replicate, length, has_prefix,
}
use grex.Fleet.View.{is_empty}

-- strings.Split(s, "\n")
abbrev pub first_longer : ℕ → List Str → List Str
first_longer c [] = (c ∷ []) ∷ []
first_longer c (line ∷ lines) = (c ∷ line) ∷ lines

unfoldable pub split_lines : Str → List Str
split_lines [] = [] ∷ []
split_lines (c ∷ s) = let rest = split_lines s in if c == 10 then [] ∷ rest else first_longer c rest

-- strings.Join(lines, "\n")
unfoldable pub join_lines : List Str → Str
join_lines [] = []
join_lines (line ∷ []) = line
join_lines (line ∷ next ∷ lines) = line ++ (10 ∷ join_lines (next ∷ lines))

abbrev pub begins_rune : ℕ → Bool
begins_rune c = ltb c 128 || leb 192 c

-- Tab stops every two columns, from this column on.
unfoldable pub expand_tabs : ℕ → Str → Str
expand_tabs col [] = []
expand_tabs col (c ∷ s) =
    let stop = expand_tabs (col + (2 - col % 2)) s in
    let next = expand_tabs (if begins_rune c then col + 1 else col) s in
    if c == 9 then replicate (2 - col % 2) 32 ++ stop else c ∷ next

-- strings.TrimLeft(line, " "), and how many spaces went.
abbrev pub trim_left : Str → Str
trim_left [] = []
trim_left (c ∷ s) = let rest = trim_left s in if c == 32 then rest else c ∷ s

abbrev pub indent : Str → ℕ
indent [] = 0
indent (c ∷ s) = let rest = indent s in if c == 32 then suc rest else 0

-- The loop of gcd; an int has fewer steps than its value.
abbrev pub gcd_loop : ℕ → ℕ → ℕ → ℕ
gcd_loop zero a b = a
gcd_loop (suc fuel) a b = let rest = gcd_loop fuel b (a % b) in if b == 0 then a else rest

unfoldable pub gcd : ℕ → ℕ → ℕ
gcd a b = gcd_loop (suc b) a b

abbrev pub sets_unit : Str → Bool
sets_unit line =
    not (is_empty (trim_left line))
    && (not (has_prefix (trim_left line) (text "#")) && not (indent line == 0))

abbrev pub unit_with : ℕ → ℕ → ℕ
unfolding gcd
unit_with unit n = if unit == 0 then n else gcd unit n

-- The indent unit of the lines.
abbrev pub indent_unit : ℕ → List Str → ℕ
indent_unit unit [] = unit
indent_unit unit (line ∷ lines) =
    indent_unit (if sets_unit line then unit_with unit (indent line) else unit) lines

abbrev pub rescale_line : ℕ → Str → Str
rescale_line scale line =
    if is_empty (trim_left line) || (indent line == 0)
    then line
    else replicate (indent line / scale) 32 ++ trim_left line

abbrev pub rescale : ℕ → List Str → List Str
rescale unit lines =
    if leb 4 unit && (unit % 2 == 0) then map (rescale_line (unit / 2)) lines else lines

unfoldable pub yaml_display : Str → Str
yaml_display s =
    if is_empty s
    then s
    else (let lines = map (expand_tabs 0) (split_lines s) in
        join_lines (rescale (indent_unit 0 lines) lines))
