-- ===== src/Soar/Workflow/Wiring.antt =====
-- What `build` of frameworks/soar-sdk/src/cobalto/soar/workflow_builder.py makes of the connections.
use cobalto.Base.{
  ℕ, zero, suc, ◌+◌, ◌<◌, ◌≤◌, ◌≡◌, refl, sym, ◌∙◌, ap, String, Bool, true, false, ◌&&◌, Option,
  none, some, List, [], ◌∷◌, ◌++◌, length, leb, string_eq, nat_eq, ◌==◌, if◌then◌else◌, Bool-cases,
  ==_sound, inl, inr, arith, ◌⊎◌, subst, lt→ltb, All,
}
use cobalto.Base.Int.{ℤ, pos, negsuc}
use cobalto.Base.Dict.{Dict, lookup, lookup-insert}
use cobalto.Soar.Workflow.{
  Connection, WorkflowBuilder, Target, Outputs, pad, append_at, outputs_or_new, write_outputs,
  Built, finished, index_error, out_of_fuel, pad_to, position, append_to, add_connection,
  add_connections, Workflow, built, build,
}

-- The targets of an output, none where there is no such output.
abbrev pub at : ℕ → Outputs → List Target
at k [] = []
at zero (o ∷ os) = o
at (suc k) (o ∷ os) = at k os

abbrev outputs_or_none : Option Outputs → Outputs
outputs_or_none none = []
outputs_or_none (some outputs) = outputs

-- What the workflow has at an output of a node.
abbrev pub targets_at : String → ℕ → Dict String Outputs → List Target
targets_at source k d = at k (outputs_or_none (lookup source d))

-- Whether the index is the output counted from 0.
abbrev pub is_output : ℤ → ℕ → Bool
is_output (pos n) k = n == k
is_output (negsuc n) k = false

-- The targets of the connections from an output of a node, in their order.
abbrev pub targets_from : String → ℕ → List Connection → List Target
targets_from source k [] = []
targets_from source k (c ∷ cs) =
    let rest = targets_from source k cs in
    let target : Target = record { node = c.target_node; index = c.target_input } in
    if c.source_node == source && is_output c.source_output k then target ∷ rest else rest

at-pad : (j : ℕ) (os : Outputs) → at j (os ++ [] ∷ []) ≡ at j os
at-pad zero [] = refl
at-pad (suc j) [] = refl
at-pad zero (o ∷ os) = refl
at-pad (suc j) (o ∷ os) = at-pad j os

length-snoc : (os : Outputs) → length (os ++ [] ∷ []) ≡ suc (length os)
length-snoc [] = refl
length-snoc (o ∷ os) = ap suc (length-snoc os)

abbrev IsPadded : ℕ → Outputs → Option Outputs → Type 0
IsPadded k outputs none = ⊥
IsPadded k outputs (some outputs') =
    (k < length outputs') × ((j : ℕ) → at j outputs' ≡ at j outputs)

loop_onward :
    (k : ℕ) (outputs : Outputs) (o : Option Outputs)
    → IsPadded k (outputs ++ [] ∷ []) o
    → IsPadded k outputs o
loop_onward k outputs none h = h
loop_onward k outputs (some outputs') (l, e) = (l, λ j. e j ∙ at-pad j outputs)

-- The loop ends, with an output k and what was there.
pub pad-IsPadded :
    (fuel k : ℕ) (outputs : Outputs)
    → 0 < fuel
    → suc k < fuel + length outputs
    → IsPadded k outputs (pad fuel k outputs)
unfolding pad
pad-IsPadded zero k outputs p h = omega arith
pad-IsPadded (suc fuel) k outputs p h = elim (Bool-cases (leb (length outputs) k)) [
  | inl e ↦
      let short : length outputs ≤ k = ground arith in
      rw e (
        loop_onward k outputs (pad fuel k (outputs ++ [] ∷ [])) (
          pad-IsPadded fuel k (outputs ++ [] ∷ []) (omega arith)
            (omega (arith, length-snoc outputs))))
  | inr e ↦ rw e ((ground arith), λ j. refl)
]

at-append_at :
    (k j : ℕ) (t : Target) (os : Outputs)
    → k < length os
    → at j (append_at k t os) ≡ (if k == j then at j os ++ t ∷ [] else at j os)
unfolding append_at
at-append_at k j t [] h = let f : ⊥ = omega arith in absurd f
at-append_at zero zero t (o ∷ os) h = ground arith
at-append_at zero (suc j) t (o ∷ os) h = ground arith
at-append_at (suc k) zero t (o ∷ os) h = ground arith
at-append_at (suc k) (suc j) t (o ∷ os) h = ground (arith, at-append_at k j t os (omega arith))

abbrev target_of : Connection → Target
target_of c = record { node = c.target_node; index = c.target_input }

-- The outputs of the connections so far, and one more connection.
abbrev IsWired : Connection → Dict String Outputs → Built (Dict String Outputs) → Type 0
IsWired c d out_of_fuel = ⊥
IsWired c d index_error = ⊥
IsWired c d (finished d') =
    (source : String) (j : ℕ)
    → targets_at source j d' ≡ targets_at source j d ++ targets_from source j (c ∷ [])

at-outputs_or_new :
    (j : ℕ) (o : Option Outputs) → at j (outputs_or_new o) ≡ at j (outputs_or_none o)
unfolding outputs_or_new
at-outputs_or_new zero none = refl
at-outputs_or_new (suc j) none = refl
at-outputs_or_new j (some os) = refl

append_nil : (l : List Target) → l ++ [] ≡ l
append_nil [] = refl
append_nil (x ∷ l) = ap (◌∷◌ x) (append_nil l)

append_assoc : (xs ys zs : List Target) → (xs ++ ys) ++ zs ≡ xs ++ (ys ++ zs)
append_assoc [] ys zs = refl
append_assoc (x ∷ xs) ys zs = ap (◌∷◌ x) (append_assoc xs ys zs)

if_append :
    (b : Bool) (l : List Target) (t : Target)
    → (if b then l ++ t ∷ [] else l) ≡ l ++ (if b then t ∷ [] else [])
if_append true l t = refl
if_append false l t = sym (append_nil l)

position-lt : (k n : ℕ) → k < n → position (pos k) n ≡ some k
unfolding position
position-lt k n h = rw (lt→ltb k n h) refl

append_to-IsWired :
    (k : ℕ) (os : Outputs) (c : Connection) (d : Dict String Outputs)
    → c.source_output ≡ pos k
    → k < length os
    → ((j : ℕ) → at j os ≡ at j (outputs_or_new (lookup c.source_node d)))
    → IsWired c d (append_to (some k) os c d)
unfolding append_to
append_to-IsWired k os c d output l e = λ source j. elim (Bool-cases (c.source_node == source)) [
  | inl same ↦
      rw (lookup-insert, same, output)
        (at-append_at k j (target_of c) os l
          ∙ if_append (k == j) (at j os) (target_of c)
          ∙ ap (λ (x : List Target). x ++ (if k == j then target_of c ∷ [] else []))
              (e j
                ∙ at-outputs_or_new j (lookup c.source_node d)
                ∙ ap (λ (n : String). targets_at n j d) (==_sound same)))
  | inr other ↦ rw (lookup-insert, other) (sym (append_nil (targets_at source j d)))
]

write_outputs-IsWired :
    (k : ℕ) (o : Option Outputs) (c : Connection) (d : Dict String Outputs)
    → c.source_output ≡ pos k
    → IsPadded k (outputs_or_new (lookup c.source_node d)) o
    → IsWired c d (write_outputs o c d)
unfolding write_outputs
write_outputs-IsWired k none c d output h = absurd h
write_outputs-IsWired k (some os) c d output (l, e) =
    subst (λ (o : Option ℕ). IsWired c d (append_to o os c d))
      (sym (ap (λ (z : ℤ). position z (length os)) output ∙ position-lt k (length os) l))
      (append_to-IsWired k os c d output l e)

-- The fuel of the loop is enough.
pad_to-IsPadded : (k : ℕ) (outputs : Outputs) → IsPadded k outputs (pad_to (pos k) outputs)
unfolding pad_to
pad_to-IsPadded k outputs = pad-IsPadded (k + 2) k outputs (omega arith) (omega arith)

-- The output is not counted from the end.
abbrev IsCounted : Connection → Type 0
IsCounted c = (k : ℕ) × (c.source_output ≡ pos k)

add_connection-IsWired :
    (c : Connection) (d : Dict String Outputs) → IsCounted c → IsWired c d (add_connection c d)
unfolding add_connection
add_connection-IsWired c d (k, output) =
    let outputs = outputs_or_new (lookup c.source_node d) in
    write_outputs-IsWired k (pad_to c.source_output outputs) c d output (
      subst (λ (z : ℤ). IsPadded k outputs (pad_to z outputs)) (sym output)
        (pad_to-IsPadded k outputs))

abbrev AreWired : List Connection → Dict String Outputs → Built (Dict String Outputs) → Type 0
AreWired cs d out_of_fuel = ⊥
AreWired cs d index_error = ⊥
AreWired cs d (finished d') =
    (source : String) (j : ℕ)
    → targets_at source j d' ≡ targets_at source j d ++ targets_from source j cs

cons_append :
    (b : Bool) (l : List Target) (t : Target)
    → (if b then t ∷ [] else []) ++ l ≡ (if b then t ∷ l else l)
cons_append true l t = refl
cons_append false l t = refl

wired_onward :
    (c : Connection) (cs : List Connection) (d d' : Dict String Outputs)
    (o : Built (Dict String Outputs))
    → IsWired c d (finished d')
    → AreWired cs d' o
    → AreWired (c ∷ cs) d o
wired_onward c cs d d' out_of_fuel w h = h
wired_onward c cs d d' index_error w h = h
wired_onward c cs d d' (finished d₁) w h = λ source j.
    h source j
    ∙ ap (λ (l : List Target). l ++ targets_from source j cs) (w source j)
    ∙ append_assoc (targets_at source j d) (targets_from source j (c ∷ []))
        (targets_from source j cs)
    ∙ ap (◌++◌ (targets_at source j d)) (
        cons_append (c.source_node == source && is_output c.source_output j)
          (targets_from source j cs) (target_of c))

-- The rest, from what the first connection leaves.
wired_then :
    (c : Connection) (cs : List Connection) (d : Dict String Outputs)
    (o : Built (Dict String Outputs))
    → ((d' : Dict String Outputs) → AreWired cs d' (add_connections cs (finished d')))
    → IsWired c d o
    → AreWired (c ∷ cs) d (add_connections cs o)
wired_then c cs d out_of_fuel ih w = absurd w
wired_then c cs d index_error ih w = absurd w
wired_then c cs d (finished d') ih w =
    wired_onward c cs d d' (add_connections cs (finished d')) w (ih d')

add_connections-AreWired :
    (cs : List Connection) (d : Dict String Outputs)
    → All IsCounted cs
    → AreWired cs d (add_connections cs (finished d))
unfolding add_connections
add_connections-AreWired [] d counted = λ source j. sym (append_nil (targets_at source j d))
add_connections-AreWired (c ∷ cs) d (first, rest) =
    wired_then c cs d (add_connection c d) (λ d'. add_connections-AreWired cs d' rest)
      (add_connection-IsWired c d first)

-- It is not the fuel that ends it.
abbrev Ends : Built (Dict String Outputs) → Type 0
Ends out_of_fuel = ⊥
Ends index_error = Unit
Ends (finished d) = Unit

append_to-Ends :
    (o : Option ℕ) (os : Outputs) (c : Connection) (d : Dict String Outputs)
    → Ends (append_to o os c d)
unfolding append_to
append_to-Ends none os c d = tt
append_to-Ends (some k) os c d = tt

IsPadded-Ends :
    (k : ℕ) (outputs : Outputs) (o : Option Outputs) (c : Connection) (d : Dict String Outputs)
    → IsPadded k outputs o
    → Ends (write_outputs o c d)
unfolding write_outputs
IsPadded-Ends k outputs none c d h = h
IsPadded-Ends k outputs (some os) c d h = append_to-Ends _ os c d

pad_to-Ends :
    (z : ℤ) (outputs : Outputs) (c : Connection) (d : Dict String Outputs)
    → Ends (write_outputs (pad_to z outputs) c d)
unfolding pad_to write_outputs
pad_to-Ends (pos k) outputs c d = IsPadded-Ends k outputs _ c d (pad_to-IsPadded k outputs)
pad_to-Ends (negsuc n) outputs c d = append_to-Ends _ outputs c d

add_connections-Ends :
    (cs : List Connection) (o : Built (Dict String Outputs)) → Ends o → Ends (add_connections cs o)
unfolding add_connections add_connection
add_connections-Ends [] o h = h
add_connections-Ends (c ∷ cs) out_of_fuel h = h
add_connections-Ends (c ∷ cs) index_error h = tt
add_connections-Ends (c ∷ cs) (finished d) h =
    add_connections-Ends cs (add_connection c d)
      (pad_to-Ends c.source_output (outputs_or_new (lookup c.source_node d)) c d)

-- Some connection counts its output from the end.
abbrev pub HasNegative : List Connection → Type 0
HasNegative [] = ⊥
HasNegative (c ∷ cs) = ((n : ℕ) × (c.source_output ≡ negsuc n)) ⊎ HasNegative cs

output-cases : (z : ℤ) → ((k : ℕ) × (z ≡ pos k)) ⊎ ((n : ℕ) × (z ≡ negsuc n))
output-cases (pos k) = inl (k, refl)
output-cases (negsuc n) = inr (n, refl)

HasNegative-cases : (cs : List Connection) → HasNegative cs ⊎ All IsCounted cs
HasNegative-cases [] = inr tt
HasNegative-cases (c ∷ cs) = elim (output-cases c.source_output) [
  | inr negative ↦ inl (inl negative)
  | inl counted ↦ elim (HasNegative-cases cs) [
    | inl later ↦ inl (inr later)
    | inr rest ↦ inr (counted, rest)
  ]
]

-- A workflow that has the builder's connections, if none of them is from a negative output; an
-- IndexError only if one is.
abbrev pub IsBuilt : WorkflowBuilder → Built Workflow → Type 0
IsBuilt b out_of_fuel = ⊥
IsBuilt b index_error = HasNegative b.connections
IsBuilt b (finished w) =
    (w.nodes ≡ b.nodes)
    × (HasNegative b.connections
        ⊎ ((source : String) (k : ℕ)
            → targets_at source k w.connections ≡ targets_from source k b.connections))

built_negative :
    (b : WorkflowBuilder) (o : Built (Dict String Outputs))
    → Ends o
    → HasNegative b.connections
    → IsBuilt b (built b o)
unfolding built
built_negative b out_of_fuel h n = h
built_negative b index_error h n = n
built_negative b (finished d) h n = (refl, inl n)

built-IsBuilt :
    (b : WorkflowBuilder) (o : Built (Dict String Outputs))
    → AreWired b.connections [] o
    → IsBuilt b (built b o)
unfolding built lookup
built-IsBuilt b out_of_fuel h = absurd h
built-IsBuilt b index_error h = absurd h
built-IsBuilt b (finished d) h = (refl, inr h)

-- `build` ends for every builder, its loop included. If no connection is from a negative output, it
-- gives a workflow with the nodes of the builder in which each output of each node leads to the
-- targets of the connections from there, in the order in which they were made, and an output with no
-- connection leads nowhere. Otherwise it gives a workflow with those nodes, or an IndexError.
pub build-IsBuilt : (b : WorkflowBuilder) → IsBuilt b (build b)
unfolding build
build-IsBuilt b = elim (HasNegative-cases b.connections) [
  | inr counted ↦
      built-IsBuilt b (add_connections b.connections (finished []))
        (add_connections-AreWired b.connections [] counted)
  | inl negative ↦
      built_negative b (add_connections b.connections (finished []))
        (add_connections-Ends b.connections (finished []) tt) negative
]
