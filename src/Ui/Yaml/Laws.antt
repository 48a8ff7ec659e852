-- ===== src/Ui/Yaml/Laws.antt =====
-- gcd and yamlDisplay of internal/ui/ui.go.
use grex.Base.{
  ◌↔◌, ℕ, zero, suc, ◌+◌, ◌-◌, ◌/◌, ◌%◌, ◌<◌, ◌≡◌, ◌≢◌, false, ◌&&◌, ◌||◌, List, [], ◌∷◌, Str, map,
  if◌then◌else◌, leb, ◌==◌, replicate, All, All-append, Bool-cases, inl, inr, arith,
}
use native.Mathlib.Nat.{mod-lt, dvd-mod_iff, dvd_refl, dvd-zero, dvd_trans}
use Prim.Native.Nat.{◌∣◌}
use grex.Fleet.View.{is_empty}
use grex.Ui.Yaml.{
  split_lines, join_lines, expand_tabs, trim_left, indent, gcd_loop, gcd, indent_unit, rescale_line,
  rescale, yaml_display, begins_rune,
}

round : (a b fuel : ℕ) → suc b < suc fuel → a % suc b < fuel
round a b fuel h = omega (arith, mod-lt a {m = suc b} (omega arith))

-- With more fuel than the second number the loop ends, at a common divisor that every common
-- divisor divides.
gcd_loop-greatest :
    (fuel a b : ℕ)
    → b < fuel
    → (gcd_loop fuel a b ∣ a)
      × (gcd_loop fuel a b ∣ b)
      × ((d : ℕ) → d ∣ a → d ∣ b → d ∣ gcd_loop fuel a b)
gcd_loop-greatest zero a b h = absurd (omega (arith, h))
gcd_loop-greatest (suc fuel) a zero h = (dvd_refl a, dvd-zero a, λ d p q. p)
gcd_loop-greatest (suc fuel) a (suc b) h =
    let n = suc b in
    let ih = gcd_loop-greatest fuel n (a % n) (round a b fuel h) in
    let more : (n == 0) ≡ false = ground arith in
    rw more (
      (dvd-mod_iff (gcd_loop fuel n (a % n)) ih.0).0 ih.1,
      ih.0,
      λ d p q. ih.2 d q ((dvd-mod_iff d q).1 p),
    )

-- gcd reaches the greatest common divisor within one round more than its second number: the numbers
-- that divide its result are those that divide both.
pub gcd-greatest : (a b d : ℕ) → ((d ∣ a) × (d ∣ b)) ↔ (d ∣ gcd a b)
unfolding gcd
gcd-greatest a b d =
    let g = gcd_loop-greatest (suc b) a b (omega arith) in
    ((λ h. g.2 d h.0 h.1), λ h. (dvd_trans d h g.0, dvd_trans d h g.1))

abbrev pub Tabless : Str → Type 0
Tabless s = All (λ c. c ≢ 9) s

Tabless-replicate : (n : ℕ) → Tabless (replicate n 32)
Tabless-replicate zero = _
Tabless-replicate (suc n) = ((λ e. absurd (omega (arith, e))), Tabless-replicate n)

expand_tabs-Tabless : (col : ℕ) (s : Str) → Tabless (expand_tabs col s)
unfolding expand_tabs
expand_tabs-Tabless col [] = _
expand_tabs-Tabless col (c ∷ s) = elim (Bool-cases (c == 9)) [
  | inl e ↦ rw e (
      All-append (λ c. c ≢ 9) (replicate (2 - col % 2) 32) _ (Tabless-replicate (2 - col % 2))
        (expand_tabs-Tabless (col + (2 - col % 2)) s))
  | inr e ↦
      rw e (
        (λ f. ground (arith, e, f)),
        expand_tabs-Tabless (if begins_rune c then col + 1 else col) s,
      )
]

trim_left-Tabless : (s : Str) → Tabless s → Tabless (trim_left s)
trim_left-Tabless [] h = _
trim_left-Tabless (c ∷ s) h = elim (Bool-cases (c == 32)) [
  | inl e ↦ rw e (trim_left-Tabless s h.1)
  | inr e ↦ rw e h
]

rescale_line-Tabless : (scale : ℕ) (line : Str) → Tabless line → Tabless (rescale_line scale line)
rescale_line-Tabless scale line h =
    elim (Bool-cases (is_empty (trim_left line) || (indent line == 0))) [
      | inl e ↦ rw e h
      | inr e ↦ rw e (
          All-append (λ c. c ≢ 9) (replicate (indent line / scale) 32) (trim_left line)
            (Tabless-replicate (indent line / scale)) (trim_left-Tabless line h))
    ]

map-All :
    (f : Str → Str) (lines : List Str)
    → ((s : Str) → Tabless s → Tabless (f s))
    → All Tabless lines
    → All Tabless (map f lines)
map-All f [] p h = _
map-All f (s ∷ lines) p h = (p s h.0, map-All f lines p h.1)

expanded : (lines : List Str) → All Tabless (map (expand_tabs 0) lines)
expanded [] = _
expanded (s ∷ lines) = (expand_tabs-Tabless 0 s, expanded lines)

rescale-Tabless :
    (unit : ℕ) (lines : List Str) → All Tabless lines → All Tabless (rescale unit lines)
rescale-Tabless unit lines h = elim (Bool-cases (leb 4 unit && (unit % 2 == 0))) [
  | inl e ↦ rw e (map-All (rescale_line (unit / 2)) lines (rescale_line-Tabless (unit / 2)) h)
  | inr e ↦ rw e h
]

join_lines-Tabless : (lines : List Str) → All Tabless lines → Tabless (join_lines lines)
unfolding join_lines
join_lines-Tabless [] h = _
join_lines-Tabless (line ∷ []) h = h.0
join_lines-Tabless (line ∷ next ∷ lines) h =
    All-append (λ c. c ≢ 9) line (10 ∷ join_lines (next ∷ lines)) h.0
      ((λ e. absurd (omega (arith, e))), join_lines-Tabless (next ∷ lines) h.1)

-- No tab is left in a configuration as it is displayed, whatever the text.
pub yaml_display-Tabless : (s : Str) → Tabless (yaml_display s)
unfolding yaml_display
yaml_display-Tabless [] = _
yaml_display-Tabless (c ∷ s) =
    let lines = map (expand_tabs 0) (split_lines (c ∷ s)) in
    join_lines-Tabless (rescale (indent_unit 0 lines) lines)
      (rescale-Tabless (indent_unit 0 lines) lines (expanded (split_lines (c ∷ s))))
