-- ===== src/Soar/Template/Substitute.antt =====
-- How rendering replaces one variable in a longer template.
use Prim.Native.Char.{Char, code}
use Prim.Native.String.{◌++◌, count}
use text.Mathlib.TextLemmas.{nil-append, cons-append, append_assoc, length-cons, length-append}
use cobalto.Base.{
  ℕ, suc, ◌+◌, ◌≡◌, ◌≢◌, ◌⊎◌, refl, sym, ◌∙◌, ap, String, Bool, true, false, Option, some, List,
  ◌∷◌, arith, Bool-cases, inl, inr, nat_beq_iff,
}
use cobalto.Base.Json.{Fields, Value, null, bool, num, str, decimal, list, obj}
use cobalto.Soar.Template.{
  Python, Segment, plain, var, is_char, longer, close, path_of, match_path, segment_of, width_of,
  segments_after, segments, mark_of, resolve_variable, replaced, replace_var, render_segments,
  render,
}
use cobalto.Soar.Template.Render.{braces_on, opening_on}

module _ (python : Python) where
  open python use {is_word, marks_no_words}

  -- A path that the pattern takes, after the start of a word or not: words with dots between them.
  abbrev pub IsPath : Bool → String → Type 0
  IsPath started String.[] = started ≡ true
  IsPath started (String.◌∷◌ c s) =
      ((is_word c ≡ true) × IsPath true s)
      ⊎ ((started ≡ true) × (is_char b'.' c ≡ true) × IsPath false s)

  abbrev pub HasNoBrace : String → Type 0
  HasNoBrace String.[] = Unit
  HasNoBrace (String.◌∷◌ c s) = (is_char b'{' c ≡ false) × HasNoBrace s

  dot_no_word : (c : Char) → is_char b'.' c ≡ true → is_word c ≡ false
  dot_no_word c h = elim (Bool-cases (is_word c)) [
    | inl word ↦ absurd ((marks_no_words c word).0 ((nat_beq_iff (code c) b'.').0 h))
    | inr other ↦ other
  ]

  brace_no_word : is_word "}" ≡ false
  brace_no_word = elim (Bool-cases (is_word "}")) [
    | inl word ↦ absurd ((marks_no_words "}" word).2 refl)
    | inr other ↦ other
  ]

  path_of-mark :
      (started : Bool) (path post : String)
      → IsPath started path
      → path_of python started (path ++ ("}}" ++ post)) ≡ some path
  unfolding path_of longer close
  path_of-mark started String.[] post h =
      ap (path_of python started) (nil-append ("}}" ++ post) ∙ braces_on post)
      ∙ rw (brace_no_word, h) refl
  path_of-mark started (String.◌∷◌ c s) post (inl (word, h)) =
      ap (path_of python started) (cons-append c s ("}}" ++ post))
      ∙ rw (word, path_of-mark true s post h) refl
  path_of-mark started (String.◌∷◌ c s) post (inr (began, dot, h)) =
      ap (path_of python started) (cons-append c s ("}}" ++ post))
      ∙ rw (dot_no_word c dot, began, dot, path_of-mark false s post h) refl

  skip-append :
      (u v : String) → segments_after python (count u) (u ++ v) ≡ segments_after python 0 v
  unfolding segments_after
  skip-append String.[] v = ap (segments_after python 0) (nil-append v)
  skip-append (String.◌∷◌ c u) v =
      ap (λ (n : ℕ). segments_after python n (String.◌∷◌ c u ++ v)) (length-cons c u)
      ∙ ap (segments_after python (suc (count u))) (cons-append c u v)
      ∙ skip-append u v

  after_mark :
      (path post : String)
      → segments_after python (count path + 3) (String.◌∷◌ "{" (path ++ ("}}" ++ post)))
        ≡ segments python post
  unfolding segments segments_after
  after_mark path post =
      let width : count path + 3 ≡ suc (count (path ++ "}}")) =
        omega (arith, length-append path "}}") in
      ap (λ (n : ℕ). segments_after python n (String.◌∷◌ "{" (path ++ ("}}" ++ post)))) width
      ∙ ap (segments_after python (count (path ++ "}}"))) (sym (append_assoc path "}}" post))
      ∙ skip-append (path ++ "}}") post

  segments-mark :
      (path post : String)
      → IsPath false path
      → segments python (mark_of python path ++ post) ≡ var path ∷ segments python post
  unfolding segments segments_after match_path segment_of width_of
  segments-mark path post h =
      let shape : mark_of python path ++ post
          ≡ String.◌∷◌ "{" (String.◌∷◌ "{" (path ++ ("}}" ++ post))) =
        append_assoc "{{" (path ++ "}}") post
        ∙ ap (λ (x : String). "{{" ++ x) (append_assoc path "}}" post)
        ∙ opening_on (path ++ ("}}" ++ post)) in
      ap (segments python) shape
      ∙ ap
          (λ (o : Option String).
            segment_of python "{" o
            ∷ segments_after python (width_of python o) (String.◌∷◌ "{" (path ++ ("}}" ++ post))))
          (path_of-mark false path post h)
      ∙ ap (◌∷◌ (var path)) (after_mark path post)

  segments-plain :
      (c : Char) (s : String)
      → is_char b'{' c ≡ false
      → segments python (String.◌∷◌ c s) ≡ plain c ∷ segments python s
  unfolding segments segments_after match_path segment_of width_of
  segments-plain c String.[] h = refl
  segments-plain c (String.◌∷◌ d s) h = rw h refl

  render-before :
      (pre rest : String) (context : Fields)
      → HasNoBrace pre
      → render python (pre ++ rest) context ≡ pre ++ render python rest context
  unfolding render render_segments
  render-before String.[] rest context h =
      ap (λ (x : String). render python x context) (nil-append rest)
      ∙ sym (nil-append (render python rest context))
  render-before (String.◌∷◌ c pre) rest context (other, h) =
      ap (λ (x : String). render python x context) (cons-append c pre rest)
      ∙ ap (render_segments python context) (segments-plain c (pre ++ rest) other)
      ∙ ap (String.◌∷◌ c) (render-before pre rest context h)
      ∙ sym (cons-append c pre (render python rest context))

  -- The text that stands for the variable: the variable itself if it has no value, and the text of
  -- its value otherwise.
  abbrev pub IsShown : Fields → String → String → Type 0
  IsShown context path text =
      ((resolve_variable python path context ≡ null) × (text ≡ "{{" ++ (path ++ "}}")))
      ⊎ ((v : Value) × (resolve_variable python path context ≡ v)
          × (v ≢ null)
          × (text ≡ python.text_of v))

  replaced-text : (v : Value) (path : String) → v ≢ null → replaced python v path ≡ python.text_of v
  unfolding replaced
  replaced-text null path h = absurd (h refl)
  replaced-text (bool b) path h = refl
  replaced-text (num n) path h = refl
  replaced-text (str s) path h = refl
  replaced-text (decimal m k) path h = refl
  replaced-text (list vs) path h = refl
  replaced-text (obj fs) path h = refl

  replace_var-IsShown :
      (context : Fields) (path text : String)
      → IsShown context path text
      → replace_var python context path ≡ text
  unfolding replace_var replaced
  replace_var-IsShown context path text (inl (missing, e)) =
      ap (λ (v : Value). replaced python v path) missing ∙ sym e
  replace_var-IsShown context path text (inr (v, found, known, e)) =
      ap (λ (v : Value). replaced python v path) found ∙ replaced-text v path known ∙ sym e

  -- Between a text without `{` and any other text, a variable is replaced by the text of its value,
  -- or stays as it is if the value is None or missing, and the text after it is rendered.
  pub render-replace_var :
      (pre path post text : String) (context : Fields)
      → HasNoBrace pre
      → IsPath false path
      → ((resolve_variable python path context ≡ null) × (text ≡ "{{" ++ (path ++ "}}")))
        ⊎ ((v : Value) × (resolve_variable python path context ≡ v)
            × (v ≢ null)
            × (text ≡ python.text_of v))
      → render python (pre ++ (("{{" ++ (path ++ "}}")) ++ post)) context
        ≡ pre ++ (text ++ render python post context)
  unfolding render render_segments
  render-replace_var pre path post text context h k shown =
      render-before pre (mark_of python path ++ post) context h
      ∙ ap (λ (parts : List Segment). pre ++ render_segments python context parts)
          (segments-mark path post k)
      ∙ ap (λ (x : String). pre ++ (x ++ render python post context))
          (replace_var-IsShown context path text shown)
