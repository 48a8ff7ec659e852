-- ===== src/Api/Parse/Laws.antt =====
-- ParseMatcher (internal/api/filter.go) reads back what String writes.
use mathlib.Core.Path.{subst}
use mathlib.Core.List.{append_assoc}
use grex.Base.{
  ℕ, ◌≡◌, ◌⊎◌, inl, inr, refl, sym, ap, ◌∙◌, Bool, true, false, [], ◌∷◌, ◌++◌, Option, none, some,
  Str, str_eq, All, ◌==◌, trim_space, arith,
}
use grex.Fleet.View.{is_empty}
use grex.Api.Filter.{AttrMatcher, op_equal, op_not_equal, op_regex, op_not_regex, matcher_string}
use grex.Api.Parse.{
  is_blank, skip_blanks, one_line, tail_match, split_matcher, unquote_matcher_value,
  matcher_pattern, is_regex_op, matcher, finish_matcher, with_regex, parse_matcher,
}

-- A byte that ends no key: no white space, no line feed, neither = nor !.
abbrev pub IsKeyByte : ℕ → Type 0
IsKeyByte c = (is_blank c ≡ false) × ((c == 61) ≡ false) × ((c == 33) ≡ false)

abbrev pub IsOp : Str → Type 0
IsOp op = (op ≡ op_equal) ⊎ (op ≡ op_not_equal) ⊎ (op ≡ op_regex) ⊎ (op ≡ op_not_regex)

-- The first byte of a value: no white space, and no ~, which would make = another operator.
abbrev pub StartsValue : Str → Type 0
StartsValue [] = Unit
StartsValue (c ∷ s) = (is_blank c ≡ false) × ((c == 126) ≡ false)

-- A matcher that is written without quotes and without spaces at the ends of its parts.
pub record IsPlain (m : AttrMatcher) : Type 0 where
  pub key_bytes : All IsKeyByte m.key
  pub key_full : is_empty m.key ≡ false
  pub op : IsOp m.op
  pub value_starts : StartsValue m.value
  pub value_line : one_line m.value ≡ true
  pub key_trimmed : trim_space m.key ≡ m.key
  pub value_bare : unquote_matcher_value m.value ≡ m.value
  pub trimmed : trim_space (matcher_string m) ≡ matcher_string m

skip_blanks-value : (v : Str) → StartsValue v → skip_blanks v ≡ v
skip_blanks-value [] h = refl
skip_blanks-value (c ∷ s) h = ground (arith, h.0)

tail-equal :
    (v : Str) → StartsValue v → one_line v ≡ true → tail_match (op_equal ++ v) ≡ some (op_equal, v)
tail-equal [] h l = refl
tail-equal (c ∷ s) h l = ground (arith, h.0, h.1, l)

tail-op :
    (op v : Str) → IsOp op → StartsValue v → one_line v ≡ true → tail_match (op ++ v) ≡ some (op, v)
tail-op op v (inl e) h l = rw e (tail-equal v h l)
tail-op op v (inr (inl e)) h l = rw (e, skip_blanks-value v h, l) refl
tail-op op v (inr (inr (inl e))) h l = rw (e, skip_blanks-value v h, l) refl
tail-op op v (inr (inr (inr e))) h l = rw (e, skip_blanks-value v h, l) refl

no_tail : (c : ℕ) (s : Str) → IsKeyByte c → tail_match (c ∷ s) ≡ none
no_tail c [] h = ground (arith, h.0, h.1, h.2)
no_tail c (d ∷ s) h = ground (arith, h.0, h.1, h.2)

split_matcher-parts :
    (key op v : Str)
    → All IsKeyByte key
    → is_empty key ≡ false
    → tail_match (op ++ v) ≡ some (op, v)
    → split_matcher (key ++ (op ++ v)) ≡ some (key, op, v)
unfolding split_matcher
split_matcher-parts [] op v h k t = absurd cc
split_matcher-parts (c ∷ []) op v h k t = rw t (ground (arith, h.0.0))
split_matcher-parts (c ∷ d ∷ key) op v h k t =
    rw (no_tail d (key ++ (op ++ v)) h.1.0, split_matcher-parts (d ∷ key) op v h.1 refl t)
      (ground (arith, h.0.0))

append-full : (key s : Str) → is_empty key ≡ false → is_empty (key ++ s) ≡ false
append-full [] s h = absurd cc
append-full (c ∷ key) s h = refl

written : (m : AttrMatcher) → matcher_string m ≡ m.key ++ (m.op ++ m.value)
unfolding matcher_string
written m = append_assoc m.key m.op m.value

parse_matcher-plain :
    (compile : Str → Option (Str → Bool)) (m : AttrMatcher)
    → IsPlain m
    → parse_matcher compile (m.key ++ (m.op ++ m.value)) ≡ finish_matcher compile m.key m.op m.value
unfolding parse_matcher
parse_matcher-plain compile m p =
    let t = tail-op m.op m.value p.op p.value_starts p.value_line in
    let whole = m.key ++ (m.op ++ m.value) in
    let trimmed : trim_space whole ≡ whole =
      subst (λ (s : Str). trim_space s ≡ s) (written m) p.trimmed in
    rw
      (
        trimmed,
        append-full m.key (m.op ++ m.value) p.key_full,
        split_matcher-parts m.key m.op m.value p.key_bytes p.key_full t,
        p.key_trimmed,
        p.value_bare,
      )
      refl

-- The matcher has the expression of its anchored value if its operator is one of the two for
-- expressions, and none otherwise.
abbrev pub IsCompiled : (Str → Option (Str → Bool)) → AttrMatcher → Type 0
IsCompiled compile m =
    ((is_regex_op m.op ≡ false) × (m.re ≡ none))
    ⊎ ((is_regex_op m.op ≡ true)
        × ((re : Str → Bool) × (compile (matcher_pattern m.value) ≡ some re) × (m.re ≡ some re)))

-- Reading what a matcher is written as gives the matcher back, with its compiled expression; for a
-- matcher that is written plainly, without quotes, spaces at the ends of its parts, or an = before
-- a value that begins with ~.
pub parse_matcher-matcher_string :
    (compile : Str → Option (Str → Bool)) (m : AttrMatcher)
    → IsPlain m
    → IsCompiled compile m
    → parse_matcher compile (matcher_string m) ≡ matcher m
parse_matcher-matcher_string compile m p (inl (e, r)) =
    ap (parse_matcher compile) (written m)
    ∙ parse_matcher-plain compile m p
    ∙ rw (p.key_full, e, sym r) refl
parse_matcher-matcher_string compile m p (inr (e, (re, k, r))) =
    ap (parse_matcher compile) (written m)
    ∙ parse_matcher-plain compile m p
    ∙ rw (p.key_full, e, k, sym r) refl

-- The text that ParseFilters makes of a bare parameter whose value begins with ~ is read as a
-- regular expression for the rest of the value, not as that exact value; for a rest that the same
-- key could be matched with, written plainly.
pub parse_matcher-tilde :
    (compile : Str → Option (Str → Bool)) (m : AttrMatcher)
    → IsPlain m
    → m.op ≡ op_regex
    → parse_matcher compile (m.key ++ (op_equal ++ (126 ∷ m.value)))
      ≡ with_regex compile m.key op_regex m.value (compile (matcher_pattern m.value))
unfolding str_eq
parse_matcher-tilde compile m p e =
    ap (λ (op : Str). parse_matcher compile (m.key ++ (op ++ m.value))) (sym e)
    ∙ parse_matcher-plain compile m p
    ∙ rw (p.key_full, e) refl
