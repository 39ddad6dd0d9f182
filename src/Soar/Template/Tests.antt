-- ===== src/Soar/Template/Tests.antt =====
-- Templates at concrete inputs. The words of the tests are the lower-case letters.
use Prim.Native.Char.{Char, code}
use Prim.Native.String.{◌++◌}
use cobalto.Base.{
  ◌≡◌, ◌≢◌, refl, ap, String, Bool, true, false, ◌&&◌, none, List, [], ◌∷◌, leb, nat_beq, arith,
  contains, inl, inr, string_eq,
}
use cobalto.Base.Json.{Value, null, str, obj, Fields, end, field, get_field}
use cobalto.Base.Sets.{add}
use cobalto.Soar.Template.{
  Python, render, extract_variables, validate_template, segments, resolve_variable, replace_var,
}
use cobalto.Soar.Template.Substitute.{IsPath, render-replace_var}

abbrev is_lower : Char → Bool
is_lower c = leb b'a' (code c) && leb (code c) b'z'

letters_no_marks :
    (c : Char) → is_lower c ≡ true → (code c ≢ b'.') × (code c ≢ b'{') × (code c ≢ b'}')
letters_no_marks c h =
    ((λ e. ground (arith, h, e)), (λ e. ground (arith, h, e)), λ e. ground (arith, h, e))

shown : Value → String
shown (str s) = s
shown v = "?"

put : Char → List String → List String
put c [] = String.◌∷◌ c "" ∷ []
put c (word ∷ words) = String.◌∷◌ c word ∷ words

split : String → List String
unfolding put
split String.[] = "" ∷ []
split (String.◌∷◌ c s) =
    let rest = split s in elim (nat_beq (code c) b'.') [ true ↦ "" ∷ rest | false ↦ put c rest ]

unfoldable plain_python : Python
unfolding shown split
plain_python = record {
  is_word = is_lower;
  marks_no_words = letters_no_marks;
  text_of = shown;
  attribute = λ name v. none;
  split_dots = split;
}

abbrev alert : Fields
alert = field "alert" (obj (field "ip" (str "10.1.2.3") end)) (field "user" (str "ana") end)

rendered :
    render plain_python "block {{alert.ip}} of {{user}} {{x}} {{a.}} {{{user}}" alert
    ≡ "block 10.1.2.3 of ana {{x}} {{a.}} {ana"
unfolding plain_python render segments replace_var resolve_variable get_field
rendered = refl

-- A variable with a dot is rendered, but the validation misses it.
dotted_missing : validate_template plain_python "{{alert.ip}}" alert ≡ (false, "alert.ip" ∷ [])
unfolding plain_python validate_template extract_variables segments get_field add
dotted_missing = refl

alert_ip-IsPath : IsPath plain_python false "alert.ip"
unfolding plain_python
alert_ip-IsPath = inl (
  refl,
  inl (refl, inl (refl, inl (refl, inl (refl, inr (refl, refl, inl (refl, inl (refl, refl))))))),
)

ip_found : resolve_variable plain_python "alert.ip" alert ≡ str "10.1.2.3"
unfolding plain_python resolve_variable get_field
ip_found = refl

ip_shown : "10.1.2.3" ≡ plain_python.text_of (str "10.1.2.3")
unfolding plain_python
ip_shown = refl

text_not_null : {s : String} → str s ≢ null
text_not_null h = cc

render-replace_var_example :
    render plain_python ("ip " ++ (("{{" ++ ("alert.ip" ++ "}}")) ++ " {{user}}")) alert
    ≡ "ip " ++ ("10.1.2.3" ++ render plain_python " {{user}}" alert)
render-replace_var_example =
    render-replace_var plain_python "ip " "alert.ip" " {{user}}" "10.1.2.3" alert
      (refl, (refl, (refl, tt))) alert_ip-IsPath
      (inr (str "10.1.2.3", ip_found, text_not_null, ip_shown))

nothing_known :
    (path : String)
    → contains path (extract_variables plain_python "to {{alert.ip}}") ≡ true
    → resolve_variable plain_python path end ≡ null
unfolding plain_python extract_variables segments add resolve_variable get_field
nothing_known path h =
    let same : path ≡ "alert.ip" = ground (arith, string_eq.same_iff path "alert.ip", h) in
    ap (λ (p : String). resolve_variable plain_python p end) same
