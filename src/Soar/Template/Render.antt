-- ===== src/Soar/Template/Render.antt =====
-- What rendering does to a template: the matches of the pattern are replaced, and nothing else.
use Prim.Native.Char.{Char, code}
use Prim.Native.String.{◌++◌, count}
use text.Mathlib.TextEquality.{Char-path}
use text.Mathlib.TextLemmas.{nil-append, cons-append, append_assoc, length-cons}
use cobalto.Base.{
  ℕ, zero, suc, ◌+◌, ◌≡◌, ==_true, contains, refl, sym, subst, ◌∙◌, ap, String, Bool, true, false,
  ◌&&◌, Option, none, some, List, [], ◌∷◌, if◌then◌else◌, arith, string_eq, nat_beq_iff,
}
use cobalto.Base.Sets.{contains-add}
use cobalto.Base.Json.{Value, null, Fields}
use cobalto.Soar.Template.{
  Python, Segment, plain, var, is_char, longer, close, path_of, match_path, segment_of, width_of,
  segments_after, segments, mark_of, variables_of, extract_variables, replaced, replace_var,
  resolve_variable, render_segments, render,
}

-- A text without its first characters.
drop : ℕ → String → String
drop zero s = s
drop (suc n) String.[] = String.[]
drop (suc n) (String.◌∷◌ c s) = drop n s

some_inj : {s t : String} → some s ≡ some t → s ≡ t
some_inj h = cc

char_is : (n : ℕ) (c d : Char) → code d ≡ n → is_char n c ≡ true → c ≡ d
char_is n c d e h = Char-path c d ((nat_beq_iff (code c) n).0 h ∙ sym e)

pub braces_on : (s : String) → "}}" ++ s ≡ String.◌∷◌ "}" (String.◌∷◌ "}" s)
braces_on s =
    cons-append "}" "}" s
    ∙ ap (String.◌∷◌ "}") (cons-append "}" "" s ∙ ap (String.◌∷◌ "}") (nil-append s))

pub opening_on : (s : String) → "{{" ++ s ≡ String.◌∷◌ "{" (String.◌∷◌ "{" s)
opening_on s =
    cons-append "{" "{" s
    ∙ ap (String.◌∷◌ "{") (cons-append "{" "" s ∙ ap (String.◌∷◌ "{") (nil-append s))

longer-some :
    (c : Char) (o : Option String) (path : String)
    → longer c o ≡ some path
    → (p : String) × (o ≡ some p) × (path ≡ String.◌∷◌ c p)
unfolding longer
longer-some c none path h = cc
longer-some c (some p) path h = (p, refl, sym (some_inj h))

-- What is left of a text once a path and its closing braces are taken off.
abbrev Ends : String → String → Type 0
Ends s path = s ≡ path ++ ("}}" ++ drop (count path + 2) s)

Ends-nil : (s : String) → Ends (String.◌∷◌ "}" (String.◌∷◌ "}" s)) ""
unfolding drop
Ends-nil s = sym (nil-append ("}}" ++ s) ∙ braces_on s)

Ends-cons : (c : Char) (s p : String) → Ends s p → Ends (String.◌∷◌ c s) (String.◌∷◌ c p)
unfolding drop
Ends-cons c s p h =
    let longer_by_one : count (String.◌∷◌ c p) + 2 ≡ suc (count p + 2) =
      omega (arith, length-cons c p) in
    ap (String.◌∷◌ c) h
    ∙ sym (cons-append c p ("}}" ++ drop (count p + 2) s))
    ∙ ap (λ (n : ℕ). String.◌∷◌ c p ++ ("}}" ++ drop n (String.◌∷◌ c s))) (sym longer_by_one)

only_if :
    (b : Bool) (path : String)
    → (if b then some "" else none) ≡ some path
    → (b ≡ true) × (path ≡ "")
only_if true path h = (refl, sym (some_inj h))
only_if false path h = cc

close-Ends :
    (c : Char) (s path : String)
    → is_char b'}' c ≡ true
    → close s ≡ some path
    → Ends (String.◌∷◌ c s) path
unfolding close
close-Ends c String.[] path h k = cc
close-Ends c (String.◌∷◌ d s) path h k =
    let (same, empty) = only_if (is_char b'}' d) path k in
    subst (λ (q : String). Ends (String.◌∷◌ c (String.◌∷◌ d s)) q) (sym empty)
      (subst (λ (x : Char). Ends (String.◌∷◌ x (String.◌∷◌ d s)) "")
        (sym (char_is b'}' c "}" refl h))
        (subst (λ (x : Char). Ends (String.◌∷◌ "}" (String.◌∷◌ x s)) "")
          (sym (char_is b'}' d "}" refl same)) (Ends-nil s)))

longer-Ends :
    (c : Char) (o : Option String) (s path : String)
    → ((p : String) → o ≡ some p → Ends s p)
    → longer c o ≡ some path
    → Ends (String.◌∷◌ c s) path
longer-Ends c o s path h k =
    let (p, e, same) = longer-some c o path k in
    subst (λ (q : String). Ends (String.◌∷◌ c s) q) (sym same) (Ends-cons c s p (h p e))

both_open :
    (a b : Bool) (o : Option String) (path : String)
    → (if a && b then o else none) ≡ some path
    → (a ≡ true) × (b ≡ true) × (o ≡ some path)
both_open true true o path h = (refl, refl, h)
both_open true false o path h = cc
both_open false b o path h = cc

-- The answer at one character, by its tests.
choose-Ends :
    (c : Char) (s path : String) (o : Option String) (word started dot closing : Bool)
    → ((p : String) → o ≡ some p → Ends s p)
    → (closing ≡ true → is_char b'}' c ≡ true)
    → (if word
        then longer c o
        else (if started
            then (if dot then longer c o else (if closing then close s else none))
            else none))
      ≡ some path
    → Ends (String.◌∷◌ c s) path
choose-Ends c s path o true started dot closing h k e = longer-Ends c o s path h e
choose-Ends c s path o false true true closing h k e = longer-Ends c o s path h e
choose-Ends c s path o false true false true h k e = close-Ends c s path (k refl) e
choose-Ends c s path o false true false false h k e = cc
choose-Ends c s path o false false dot closing h k e = cc

module _ (python : Python) where
  open python use {is_word, text_of}

  path_of-Ends :
      (started : Bool) (s path : String) → path_of python started s ≡ some path → Ends s path
  unfolding path_of
  path_of-Ends started String.[] path h = cc
  path_of-Ends started (String.◌∷◌ c s) path h =
      choose-Ends c s path (path_of python (is_word c) s) (is_word c) started (is_char b'.' c)
        (is_char b'}' c) (λ p. path_of-Ends (is_word c) s p) (λ same. same) h

  -- A match is the marks around its path, and then the text that follows.
  match_path-Ends :
      (c : Char) (s path : String)
      → match_path python (String.◌∷◌ c s) ≡ some path
      → String.◌∷◌ c s ≡ mark_of python path ++ drop (count path + 3) s
  unfolding match_path drop
  match_path-Ends c String.[] path h = cc
  match_path-Ends c (String.◌∷◌ d s) path h =
      let (first, second, found) =
        both_open (is_char b'{' c) (is_char b'{' d) (path_of python false s) path h in
      let after = drop (count path + 2) s in
      let one_less : count path + 3 ≡ suc (count path + 2) = omega arith in
      let one_on : drop (count path + 3) (String.◌∷◌ d s) ≡ after =
        ap (λ (n : ℕ). drop n (String.◌∷◌ d s)) one_less in
      ap (λ (x : Char). String.◌∷◌ x (String.◌∷◌ d s)) (char_is b'{' c "{" refl first)
      ∙ ap (λ (x : Char). String.◌∷◌ "{" (String.◌∷◌ x s)) (char_is b'{' d "{" refl second)
      ∙ sym (opening_on s)
      ∙ ap (λ (x : String). "{{" ++ x)
          (path_of-Ends false s path found ∙ sym (append_assoc path "}}" after))
      ∙ sym (append_assoc "{{" (path ++ "}}") after)
      ∙ ap (λ (x : String). mark_of python path ++ x) (sym one_on)

  -- The template that the segments come from.
  source_of : List Segment → String
  source_of [] = ""
  source_of (plain c ∷ rest) = String.◌∷◌ c (source_of rest)
  source_of (var path ∷ rest) = mark_of python path ++ source_of rest

  segment-source_of :
      (c : Char) (s : String) (o : Option String) (tail : ℕ → List Segment)
      → match_path python (String.◌∷◌ c s) ≡ o
      → ((n : ℕ) → source_of (tail n) ≡ drop n s)
      → source_of (segment_of python c o ∷ tail (width_of python o)) ≡ String.◌∷◌ c s
  unfolding source_of segment_of width_of drop
  segment-source_of c s none tail e h = ap (String.◌∷◌ c) (h 0)
  segment-source_of c s (some path) tail e h =
      ap (λ (x : String). mark_of python path ++ x) (h (count path + 3))
      ∙ sym (match_path-Ends c s path e)

  segments_after-source_of : (s : String) (n : ℕ) → source_of (segments_after python n s) ≡ drop n s
  unfolding source_of segments_after drop
  segments_after-source_of String.[] zero = refl
  segments_after-source_of String.[] (suc n) = refl
  segments_after-source_of (String.◌∷◌ c s) (suc n) = segments_after-source_of s n
  segments_after-source_of (String.◌∷◌ c s) zero =
      segment-source_of c s (match_path python (String.◌∷◌ c s)) (λ n. segments_after python n s)
        refl (λ n. segments_after-source_of s n)

  unresolved_source :
      (context : Fields) (parts : List Segment)
      → ((path : String)
          → contains path (variables_of python parts) ≡ true
          → resolve_variable python path context ≡ null)
      → render_segments python context parts ≡ source_of parts
  unfolding render_segments source_of variables_of replace_var replaced
  unresolved_source context [] h = refl
  unresolved_source context (plain c ∷ rest) h =
      ap (String.◌∷◌ c) (unresolved_source context rest h)
  unresolved_source context (var path ∷ rest) h =
      let found = variables_of python rest in
      let ih =
        unresolved_source context rest
          (λ q k. h q (contains-add path q found ∙ ground (arith, k))) in
      let missing = h path (contains-add path path found ∙ rw (==_true path) refl) in
      ap (λ (v : Value). replaced python v path ++ render_segments python context rest) missing
      ∙ ap (λ (x : String). mark_of python path ++ x) ih

  -- A template none of whose variables is resolved stays as it is.
  pub render-unresolved :
      (template : String) (context : Fields)
      → ((path : String)
          → contains path (extract_variables python template) ≡ true
          → resolve_variable python path context ≡ null)
      → render python template context ≡ template
  unfolding render extract_variables segments drop
  render-unresolved template context h =
      unresolved_source context (segments python template) h ∙ segments_after-source_of template 0
