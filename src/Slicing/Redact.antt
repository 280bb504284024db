-- ===== src/Slicing/Redact.antt =====
-- `redactBlock` of distillation/src/slicing.mts: secrets of known shapes are overwritten in place. Where
-- the regular expressions match is a parameter; what is done with the matches is modelled. Positions
-- count code points.

use agent_context_broker.Prelude.{
  ℕ, zero, suc, ◌+◌, ◌*◌, String, Bool, not, ◌&&◌, ◌||◌, List, [], ◌∷◌, ◌++◌, ltb, leb, ◌==◌,
  if◌then◌else◌, length, any, str_eq,
}
use agent_context_broker.Prelude.Text.{units}
use agent_context_broker.Slicing.Errors.{
  Result, ok, ◌>>◌, require, text_limit, residual, offset_drift,
}

abbrev pub max_text_chars : ℕ
max_text_chars = 8 * 1024 * 1024

-- `text.length`: a code point above 0xffff takes two units.
abbrev pub unit_count : List ℕ → ℕ
unit_count [] = 0
unit_count (c ∷ cs) = (if ltb 0xffff c then 2 else 1) + unit_count cs

abbrev pub Kinds : Type 0
Kinds = List (String × ℕ)

-- `kinds[kind] = (kinds[kind] ?? 0) + count`
pub add_kind : String → ℕ → Kinds → Kinds
add_kind k n [] = (k, n) ∷ []
add_kind k n ((j, m) ∷ ks) = if str_eq j k then (j, m + n) ∷ ks else (j, m) ∷ add_kind k n ks

unfoldable pub merge_kinds : Kinds → Kinds → Kinds
unfolding add_kind
merge_kinds [] into = into
merge_kinds ((k, n) ∷ ks) into = merge_kinds ks (add_kind k n into)

pub record Match : Type 0 where
  pub start : ℕ
  pub size : ℕ

abbrev pub Matcher : Type 0
Matcher = List ℕ → List Match

-- The expressions `QUOTED`, those of a private key's first and last line, `PATTERNS` in their order with
-- their labels, `TOKEN`, and whether any of the expressions that the last check tries matches.
pub record Patterns : Type 0 where
  pub quoted : Matcher
  pub begins : Matcher
  pub ends : Matcher
  pub labelled : List (String × Matcher)
  pub token : Matcher
  pub leaks : List ℕ → Bool

abbrev pub star : ℕ
star = b'*'

-- `out[i] = c`; past the end an assignment makes the array longer.
abbrev pub set_at : ℕ → ℕ → List ℕ → List ℕ
set_at i c [] = c ∷ []
set_at zero c (x ∷ xs) = c ∷ xs
set_at (suc i) c (x ∷ xs) = x ∷ set_at i c xs

-- `for (let i = start; i < end; i++) out[i] = label[i - start] ?? '*'`
unfoldable pub paint : ℕ → ℕ → List ℕ → List ℕ → List ℕ
paint zero i label out = out
paint (suc size) i [] out = paint size (suc i) [] (set_at i star out)
paint (suc size) i (l ∷ label) out = paint size (suc i) label (set_at i l out)

abbrev pub paint_all : List ℕ → List Match → List ℕ → List ℕ
paint_all label [] out = out
paint_all label (m ∷ ms) out = paint_all label ms (paint m.size m.start label out)

abbrev pub label_of : String → List ℕ
label_of kind = units "[redacted:" ++ (units kind ++ units "]")

-- The loop over `PATTERNS`; every pattern is tried on `masked`.
unfoldable pub paint_labelled : List ℕ → List (String × Matcher) → List ℕ → List ℕ
paint_labelled masked [] out = out
paint_labelled masked ((kind, matcher) ∷ ps) out =
    paint_labelled masked ps (paint_all (label_of kind) (matcher masked) out)

count_matches : String → List Match → Kinds → Kinds
unfolding add_kind
count_matches kind [] ks = ks
count_matches kind (m ∷ ms) ks = count_matches kind ms (add_kind kind 1 ks)

count_labelled : List ℕ → List (String × Matcher) → Kinds → Kinds
unfolding count_matches
count_labelled masked [] ks = ks
count_labelled masked ((kind, matcher) ∷ ps) ks =
    count_labelled masked ps (count_matches kind (matcher masked) ks)

-- `if (quoted) kinds['quoted-credential'] = quoted`
count_quoted : List Match → Kinds → Kinds
unfolding add_kind
count_quoted [] ks = ks
count_quoted (m ∷ ms) ks = add_kind "quoted-credential" (length (m ∷ ms)) ks

-- `lastBegin` and `lastEnd`: one more than the place of the last match, and 0 for -1.
abbrev pub last_match : List Match → ℕ
last_match [] = 0
last_match (m ∷ []) = suc m.start
last_match (m ∷ n ∷ ms) = last_match (n ∷ ms)

module _ (p : Patterns) where
  abbrev pub hide_quoted : List ℕ → List ℕ
  hide_quoted value = paint_all [] (p.quoted value) value

  abbrev pub hide_labelled : List ℕ → List ℕ
  hide_labelled masked = paint_labelled masked p.labelled masked

  abbrev pub hide_token : List ℕ → List ℕ
  hide_token out = paint_all [] (p.token out) out

  unfoldable pub redaction_kinds_of : List ℕ → Kinds
  unfolding count_labelled count_quoted count_matches
  redaction_kinds_of value =
      let masked = hide_quoted value in
      count_matches "provider-token" (p.token (hide_labelled masked))
        (count_quoted (p.quoted value) (count_labelled masked p.labelled []))

  -- `redactBlock`
  unfoldable pub redact_block : List ℕ → Result (List ℕ × Kinds)
  redact_block value = do
    require (leb (unit_count value) (max_text_chars * 2) && leb (length value) max_text_chars)
        text_limit
    require (not (any (λ c. c == 0x1b) value)) residual
    let masked = hide_quoted value
    let last_begin = last_match (p.begins masked)
    require (last_begin == 0 || ltb last_begin (last_match (p.ends masked))) residual
    let text = hide_token (hide_labelled masked)
    require (length text == length value) offset_drift
    require (not (p.leaks text)) residual
    ok (text, redaction_kinds_of value)
