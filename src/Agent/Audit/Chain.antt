-- ===== src/Agent/Audit/Chain.antt =====
-- Lists of audit events: what the loop of `verify_chain` accepts.
use cobalto.Base.{
  ℕ, zero, suc, ◌<◌, ◌≡◌, refl, sym, ◌∙◌, ap, ◌↔◌, string_eq, ==_true, ==_sound, inl, inr, String,
  Bool, true, false, Option, none, some, List, [], ◌∷◌, ◌++◌, take, All, In, if◌then◌else◌, arith,
}
use cobalto.Agent.Audit.{
  AuditEvent, Codec, to_dict, sign_event, same_text, sealed, linked, verify_from, insert_event,
  sort_events,
}

-- From the newest first to the oldest first.
abbrev pub oldest_first : List AuditEvent → List AuditEvent
oldest_first [] = []
oldest_first (e ∷ l) = oldest_first l ++ e ∷ []

abbrev pub newest : List AuditEvent → Option AuditEvent
newest [] = none
newest (e ∷ l) = some e

abbrev last_or : Option AuditEvent → List AuditEvent → Option AuditEvent
last_or p [] = p
last_or p (x ∷ xs) = last_or (some x) xs

abbrev pub Older : ℕ → AuditEvent → Type 0
Older t x = x.timestamp < t

All-snoc :
    (P : AuditEvent → Type 0) (l : List AuditEvent) (e : AuditEvent)
    → All P l
    → P e
    → All P (l ++ e ∷ [])
All-snoc P [] e a p = (p, tt)
All-snoc P (x ∷ l) e (q, a) p = (q, All-snoc P l e a p)

All-oldest_first :
    (P : AuditEvent → Type 0) (l : List AuditEvent) → All P l → All P (oldest_first l)
All-oldest_first P [] a = tt
All-oldest_first P (x ∷ l) (p, a) = All-snoc P (oldest_first l) x (All-oldest_first P l a) p

All-take : (P : AuditEvent → Type 0) (n : ℕ) (l : List AuditEvent) → All P l → All P (take n l)
All-take P zero l a = tt
All-take P (suc n) [] a = tt
All-take P (suc n) (x ∷ l) (p, a) = (p, All-take P n l a)

insert_event-last :
    (e : AuditEvent) (l : List AuditEvent)
    → All (Older e.timestamp) l
    → insert_event e l ≡ l ++ e ∷ []
unfolding insert_event
insert_event-last e [] a = refl
insert_event-last e (x ∷ l) (p, a) = ground (arith, insert_event-last e l a)

last_or-snoc :
    (p : Option AuditEvent) (l : List AuditEvent) (e : AuditEvent)
    → last_or p (l ++ e ∷ []) ≡ some e
last_or-snoc p [] e = refl
last_or-snoc p (x ∷ l) e = last_or-snoc (some x) l e

last_or-oldest_first : (l : List AuditEvent) → last_or none (oldest_first l) ≡ newest l
last_or-oldest_first [] = refl
last_or-oldest_first (e ∷ l) = last_or-snoc none (oldest_first l) e

some_inj : {x y : String} → some x ≡ some y → x ≡ y
some_inj h = cc

same_text_iff : (a b : Option String) → (same_text a b ≡ true) ↔ (a ≡ b)
unfolding same_text
same_text_iff none none = ((λ h. refl), λ h. refl)
same_text_iff none (some y) = ((λ h. cc), λ h. cc)
same_text_iff (some x) none = ((λ h. cc), λ h. cc)
same_text_iff (some x) (some y) =
    ((λ h. ap some (==_sound h)), λ h. rw (sym (some_inj h)) (==_true x))

module _ (C : Codec) (secret : String) where
  -- Each event is sealed, newer than those before it, and carries the signature of the last of them.
  abbrev pub Chained : List AuditEvent → Type 0
  Chained [] = Unit
  Chained (e ∷ l) =
      (sealed C secret e ≡ true)
      × (linked (newest l) e ≡ true)
      × All (Older e.timestamp) l
      × Chained l

  -- Each event of a list is sealed, and linked to the one before it.
  abbrev pub Linked : Option AuditEvent → List AuditEvent → Type 0
  Linked p [] = Unit
  Linked p (e ∷ l) = (sealed C secret e ≡ true) × (linked p e ≡ true) × Linked (some e) l

  -- The signature is the HMAC of the event without it.
  abbrev pub IsSigned : AuditEvent → Type 0
  IsSigned e =
      e.hmac_signature
      ≡ some (C.hexdigest secret (C.dumps_sorted (to_dict C (record e { hmac_signature = none }))))

  -- The previous hash is the signature of the event before, if there is one.
  abbrev pub IsNext : Option AuditEvent → AuditEvent → Type 0
  IsNext none e = Unit
  IsNext (some p) e = e.previous_hash ≡ p.hmac_signature

  abbrev pub IsChainFrom : Option AuditEvent → List AuditEvent → Type 0
  IsChainFrom p [] = Unit
  IsChainFrom p (e ∷ l) = IsSigned e × IsNext p e × IsChainFrom (some e) l

  abbrev pub IsChain : List AuditEvent → Type 0
  IsChain l = IsChainFrom none l

  sealed-IsSigned : (e : AuditEvent) → (sealed C secret e ≡ true) ↔ IsSigned e
  unfolding sealed sign_event
  sealed-IsSigned e = same_text_iff e.hmac_signature _

  linked-IsNext : (p : Option AuditEvent) (e : AuditEvent) → (linked p e ≡ true) ↔ IsNext p e
  unfolding linked
  linked-IsNext none e = ((λ h. tt), λ h. refl)
  linked-IsNext (some p) e = same_text_iff e.previous_hash p.hmac_signature

  pub Linked-IsChain : (p : Option AuditEvent) (l : List AuditEvent) → Linked p l ↔ IsChainFrom p l
  Linked-IsChain p [] = ((λ h. tt), λ h. tt)
  Linked-IsChain p (e ∷ l) =
      let (signed, seal) = sealed-IsSigned e in
      let (next, link) = linked-IsNext p e in
      let (there, back) = Linked-IsChain (some e) l in
      (
        (λ h. let (a, b, c) = h in (signed a, next b, there c)),
        λ h. let (a, b, c) = h in (seal a, link b, back c),
      )

  both_true :
      (a b c : Bool)
      → ((if a then (if b then c else false) else false) ≡ true)
        ↔ ((a ≡ true) × (b ≡ true) × (c ≡ true))
  both_true a b c = ground arith

  pub verify_from-Linked :
      (p : Option AuditEvent) (l : List AuditEvent) → (verify_from C secret p l ≡ true) ↔ Linked p l
  unfolding verify_from
  verify_from-Linked p [] = ((λ h. tt), λ h. refl)
  verify_from-Linked p (e ∷ l) =
      let (there, back) = verify_from-Linked (some e) l in
      let (split, join) =
        both_true (sealed C secret e) (linked p e) (verify_from C secret (some e) l) in
      (
        (λ h. let (a, b, c) = split h in (a, b, there c)),
        λ h. let (a, b, c) = h in join (a, b, back c),
      )

  Linked-snoc :
      (p : Option AuditEvent) (l : List AuditEvent) (e : AuditEvent)
      → Linked p l
      → sealed C secret e ≡ true
      → linked (last_or p l) e ≡ true
      → Linked p (l ++ e ∷ [])
  Linked-snoc p [] e h s k = (s, k, tt)
  Linked-snoc p (x ∷ l) e (a, b, h) s k = (a, b, Linked-snoc (some x) l e h s k)

  Linked-oldest_first : (l : List AuditEvent) → Chained l → Linked none (oldest_first l)
  Linked-oldest_first [] c = tt
  Linked-oldest_first (e ∷ l) (s, k, a, c) =
      Linked-snoc none (oldest_first l) e (Linked-oldest_first l c) s
        (ap (λ (p : Option AuditEvent). linked p e) (last_or-oldest_first l) ∙ k)

  sort_events-oldest_first : (l : List AuditEvent) → Chained l → sort_events l ≡ oldest_first l
  unfolding sort_events
  sort_events-oldest_first [] c = refl
  sort_events-oldest_first (e ∷ l) (s, k, a, c) =
      ap (insert_event e) (sort_events-oldest_first l c)
      ∙ insert_event-last e (oldest_first l) (All-oldest_first (Older e.timestamp) l a)

  -- The newest events of a chain are one.
  pub Chained-take : (n : ℕ) (l : List AuditEvent) → Chained l → Chained (take n l)
  unfolding linked
  Chained-take zero l c = tt
  Chained-take (suc n) [] c = tt
  Chained-take (suc zero) (e ∷ l) (s, k, a, c) = (s, refl, tt, tt)
  Chained-take (suc (suc n)) (e ∷ []) (s, k, a, c) = (s, k, tt, tt)
  Chained-take (suc (suc n)) (e ∷ x ∷ l) (s, k, a, c) =
      (s, k, All-take (Older e.timestamp) (suc n) (x ∷ l) a, Chained-take (suc n) (x ∷ l) c)

  pub Chained-verify :
      (l : List AuditEvent) → Chained l → verify_from C secret none (sort_events l) ≡ true
  Chained-verify l c =
      ap (verify_from C secret none) (sort_events-oldest_first l c)
      ∙ (verify_from-Linked none (oldest_first l)).1 (Linked-oldest_first l c)

  -- Parts of what is linked
  Linked-prefix : (p : Option AuditEvent) (a b : List AuditEvent) → Linked p (a ++ b) → Linked p a
  Linked-prefix p [] b h = tt
  Linked-prefix p (e ∷ a) b (s, k, h) = (s, k, Linked-prefix (some e) a b h)

  Linked-unlinked : (p : Option AuditEvent) (b : List AuditEvent) → Linked p b → Linked none b
  unfolding linked
  Linked-unlinked p [] h = tt
  Linked-unlinked p (e ∷ b) (s, k, h) = (s, refl, h)

  Linked-suffix :
      (p : Option AuditEvent) (a b : List AuditEvent) → Linked p (a ++ b) → Linked none b
  Linked-suffix p [] b h = Linked-unlinked p b h
  Linked-suffix p (e ∷ a) b (s, k, h) = Linked-suffix (some e) a b h

  pub verify_from-part :
      (a b c : List AuditEvent)
      → verify_from C secret none (a ++ (b ++ c)) ≡ true
      → verify_from C secret none b ≡ true
  verify_from-part a b c h =
      let l = (verify_from-Linked none (a ++ (b ++ c))).0 h in
      (verify_from-Linked none b).1 (Linked-prefix none b c (Linked-suffix none a (b ++ c) l))

  pub Linked-sealed :
      (p : Option AuditEvent) (l : List AuditEvent) (e : AuditEvent)
      → Linked p l
      → In e l
      → sealed C secret e ≡ true
  Linked-sealed p [] e h m = elim m [ ]
  Linked-sealed p (x ∷ l) e (s, k, h) (inl same) = ap (sealed C secret) same ∙ s
  Linked-sealed p (x ∷ l) e (s, k, h) (inr there) = Linked-sealed (some x) l e h there
