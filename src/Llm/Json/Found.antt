-- ===== src/Llm/Json/Found.antt =====
-- extract_json_object (crates/wanax-llm/src/jsonutil.rs) finds an object that is written as braces, strings
-- and other characters, whatever stands in its strings.
use Prim.Native.Char.{Char, code}
use wanax.Prelude.{
  ◌≡◌, refl, ap, ◌∙◌, ℕ, suc, String, Bool, true, false, not, ◌||◌, Option, none, some,
  if◌then◌else◌, ◌==◌, arith,
}
use wanax.Llm.Json.{
  Scan, step, step_string, step_outside, is_last, scan, first_object, reply_body,
  extract_json_object,
}

abbrev is_plain : ℕ → Bool
is_plain c = not ((c == 34) || (c == 123) || (c == 125))

abbrev is_raw : ℕ → Bool
is_raw c = not ((c == 34) || (c == 92))

-- What stands in a string: characters, and escaped ones.
pub data Quoted : Type 0 where
  done : Quoted
  raw : (c : Char) → is_raw (code c) ≡ true → Quoted → Quoted
  escaped : Char → Quoted → Quoted

-- What stands in an object: other characters, strings and objects.
pub data Inside : Type 0 where
  end : Inside
  plain : (c : Char) → is_plain (code c) ≡ true → Inside → Inside
  quoted : Quoted → Inside → Inside
  nested : Inside → Inside → Inside

-- The text, with what follows it.
abbrev pub show_quoted : Quoted → String → String
show_quoted done t = String.◌∷◌ "\"" t
show_quoted (raw c h q) t = String.◌∷◌ c (show_quoted q t)
show_quoted (escaped c q) t = String.◌∷◌ "\\" (String.◌∷◌ c (show_quoted q t))

abbrev pub show_inside : Inside → String → String
show_inside end t = t
show_inside (plain c h i) t = String.◌∷◌ c (show_inside i t)
show_inside (quoted q i) t = String.◌∷◌ "\"" (show_quoted q (show_inside i t))
show_inside (nested o i) t = String.◌∷◌ "{" (show_inside o (String.◌∷◌ "}" (show_inside i t)))

abbrev pub show_object : Inside → String → String
show_object i t = String.◌∷◌ "{" (show_inside i (String.◌∷◌ "}" t))

abbrev then_text : (String → String) → Option String → Option String
then_text f none = none
then_text f (some t) = some (f t)

abbrev outside_at : ℕ → Scan
outside_at d = record { depth = d; in_str = false; escape = false }

abbrev inside_at : ℕ → Scan
inside_at d = record { depth = d; in_str = true; escape = false }

then_then :
    (f g : String → String) (o : Option String)
    → then_text f (then_text g o) ≡ then_text (λ t. f (g t)) o
then_then f g none = refl
then_then f g (some t) = refl

then_same : (o : Option String) → o ≡ then_text (λ t. t) o
then_same none = refl
then_same (some t) = refl

-- A character that does not end the object, and the rest of the text.
scan_on :
    (c : Char) (s next : Scan) (text : String)
    → is_last (code c) s ≡ false
    → step (code c) s ≡ next
    → scan s (String.◌∷◌ c text) ≡ then_text (String.◌∷◌ c) (scan next text)
unfolding scan
scan_on c s next text e same =
    elim (scan next text)
        as (λ o.
          scan (step (code c) s) text ≡ o
          → (if is_last (code c) s
              then some (String.◌∷◌ c "")
              else elim (scan (step (code c) s) text) [
                | none ↦ none
                | some t ↦ some (String.◌∷◌ c t)
              ])
            ≡ then_text (String.◌∷◌ c) o) [
              | none ↦ λ h. simp (e, h) refl
              | some t ↦ λ h. simp (e, h) refl
            ]
      (ap (λ z. scan z text) same)

step_raw : (d n : ℕ) → is_raw n ≡ true → step n (inside_at d) ≡ inside_at d
unfolding step step_string
step_raw d n h = ground arith

step_plain : (d n : ℕ) → is_plain n ≡ true → step n (outside_at d) ≡ outside_at d
unfolding step step_outside
step_plain d n h = ground arith

last_plain : (d n : ℕ) → is_plain n ≡ true → is_last n (outside_at d) ≡ false
unfolding is_last step_outside
last_plain d n h = ground arith

last_inner : (d : ℕ) → is_last 125 (outside_at (suc (suc d))) ≡ false
unfolding is_last step_outside
last_inner d = ground arith

step_inner : (d : ℕ) → step 125 (outside_at (suc (suc d))) ≡ outside_at (suc d)
unfolding step step_outside
step_inner d = ground arith

scan_quoted :
    (d : ℕ) (q : Quoted) (t : String)
    → scan (inside_at d) (show_quoted q t) ≡ then_text (show_quoted q) (scan (outside_at d) t)
unfolding step step_string is_last
scan_quoted d done t = scan_on "\"" (inside_at d) (outside_at d) t refl refl
scan_quoted d (raw c h q) t =
    scan_on c (inside_at d) (inside_at d) (show_quoted q t) refl (step_raw d (code c) h)
    ∙ ap (then_text (String.◌∷◌ c)) (scan_quoted d q t)
    ∙ then_then (String.◌∷◌ c) (show_quoted q) (scan (outside_at d) t)
scan_quoted d (escaped c q) t =
    scan_on "\\" (inside_at d) record { depth = d; in_str = true; escape = true }
      (String.◌∷◌ c (show_quoted q t)) refl refl
    ∙ ap (then_text (String.◌∷◌ "\\")) (
        scan_on c record { depth = d; in_str = true; escape = true } (inside_at d) (show_quoted q t)
          refl refl
        ∙ ap (then_text (String.◌∷◌ c)) (scan_quoted d q t)
        ∙ then_then (String.◌∷◌ c) (show_quoted q) (scan (outside_at d) t))
    ∙ then_then (String.◌∷◌ "\\") (λ u. String.◌∷◌ c (show_quoted q u)) (scan (outside_at d) t)

scan_inside :
    (d : ℕ) (i : Inside) (t : String)
    → scan (outside_at (suc d)) (show_inside i t)
      ≡ then_text (show_inside i) (scan (outside_at (suc d)) t)
unfolding step step_outside is_last
scan_inside d end t = then_same (scan (outside_at (suc d)) t)
scan_inside d (plain c h i) t =
    scan_on c (outside_at (suc d)) (outside_at (suc d)) (show_inside i t)
      (last_plain (suc d) (code c) h) (step_plain (suc d) (code c) h)
    ∙ ap (then_text (String.◌∷◌ c)) (scan_inside d i t)
    ∙ then_then (String.◌∷◌ c) (show_inside i) (scan (outside_at (suc d)) t)
scan_inside d (quoted q i) t =
    scan_on "\"" (outside_at (suc d)) (inside_at (suc d)) (show_quoted q (show_inside i t)) refl
      refl
    ∙ ap (then_text (String.◌∷◌ "\"")) (
        scan_quoted (suc d) q (show_inside i t)
        ∙ ap (then_text (show_quoted q)) (scan_inside d i t)
        ∙ then_then (show_quoted q) (show_inside i) (scan (outside_at (suc d)) t))
    ∙ then_then (String.◌∷◌ "\"") (λ u. show_quoted q (show_inside i u))
        (scan (outside_at (suc d)) t)
scan_inside d (nested o i) t =
    scan_on "{" (outside_at (suc d)) (outside_at (suc (suc d)))
      (show_inside o (String.◌∷◌ "}" (show_inside i t))) refl refl
    ∙ ap (then_text (String.◌∷◌ "{")) (
        scan_inside (suc d) o (String.◌∷◌ "}" (show_inside i t))
        ∙ ap (then_text (show_inside o)) (
            scan_on "}" (outside_at (suc (suc d))) (outside_at (suc d)) (show_inside i t)
              (last_inner d) (step_inner d)
            ∙ ap (then_text (String.◌∷◌ "}")) (scan_inside d i t)
            ∙ then_then (String.◌∷◌ "}") (show_inside i) (scan (outside_at (suc d)) t))
        ∙ then_then (show_inside o) (λ u. String.◌∷◌ "}" (show_inside i u))
            (scan (outside_at (suc d)) t))
    ∙ then_then (String.◌∷◌ "{") (λ u. show_inside o (String.◌∷◌ "}" (show_inside i u)))
        (scan (outside_at (suc d)) t)

scan_close : (t : String) → scan (outside_at 1) (String.◌∷◌ "}" t) ≡ some "}"
unfolding scan is_last step_outside
scan_close t = refl

scan_object :
    (i : Inside) (t : String) → scan (outside_at 0) (show_object i t) ≡ some (show_object i "")
unfolding step step_outside is_last
scan_object i t =
    scan_on "{" (outside_at 0) (outside_at 1) (show_inside i (String.◌∷◌ "}" t)) refl refl
    ∙ ap (then_text (String.◌∷◌ "{"))
        (scan_inside 0 i (String.◌∷◌ "}" t) ∙ ap (then_text (show_inside i)) (scan_close t))

-- Characters before the object, none of which is an opening brace.
pub data Lead : Type 0 where
  none_left : Lead
  then_char : (c : Char) → (code c == 123) ≡ false → Lead → Lead

abbrev pub show_lead : Lead → String → String
show_lead none_left t = t
show_lead (then_char c h l) t = String.◌∷◌ c (show_lead l t)

first_object_found :
    (l : Lead) (i : Inside) (t : String)
    → first_object (show_lead l (show_object i t)) ≡ some (show_object i "")
unfolding first_object
first_object_found none_left i t = scan_object i t
first_object_found (then_char c h l) i t = simp h (first_object_found l i t)

-- If a reply without its fence is some text with no opening brace, an object and any text, the object is
-- what is extracted: braces and escaped quotes in its strings do not count.
pub extract_json_object_found :
    (text : String) (l : Lead) (i : Inside) (t : String)
    → reply_body text ≡ show_lead l (show_object i t)
    → extract_json_object text ≡ some (show_object i "")
unfolding extract_json_object
extract_json_object_found text l i t e = ap first_object e ∙ first_object_found l i t
