-- ===== src/Agent/Audit/Verify.antt =====
-- `verify_chain` of frameworks/agent-sdk/src/cobalto/agent/audit.py: what it accepts and what it misses.
use cobalto.Base.{
  ℕ, ◌+◌, ◌<◌, ◌≡◌, ◌≢◌, refl, sym, ◌∙◌, ap, ◌↔◌, String, Bool, true, false, Option, none, some,
  List, [], ◌∷◌, ◌++◌, take, All, In, Bool-cases, inl, inr, arith,
}
use cobalto.Agent.Redis.{Redis}
use cobalto.Agent.Audit.{
  AuditEvent, Codec, Faithful, Entry, event_key, index_key, hash_key, ttl, event_of, sealed, linked,
  same_text, verify_from, insert_event, sort_events, hash_in, log_event, get_incident_events,
  verdict, verify_chain,
}
use cobalto.Agent.Audit.Chain.{
  IsChain, Linked-IsChain, Chained-take, Chained-verify, verify_from-Linked, verify_from-part,
  Linked-sealed,
}
use cobalto.Agent.Audit.Trail.{
  Holds, Precedes, Proper, log_all, log_all-Holds, log_event-Holds, signed_event,
  get_incident_events-Holds,
}

unwrapped_true : {b : Bool} → some b ≡ some true → b ≡ true
unwrapped_true h = cc

sealed_not :
    (C : Codec) (secret : String) (l : List AuditEvent) (e : AuditEvent) {b : Bool}
    → sealed C secret e ≡ true
    → sealed C secret e ≡ false
    → b ≡ false
sealed_not C secret l e h k = cc

nothing_before :
    (C : Codec) (secret : String) (D : Redis C.Bytes) (t : ℕ) (i : String) (ns : List Entry)
    → All (λ (m : Entry). All (Precedes C secret D t i m) []) ns
nothing_before C secret D t i [] = tt
nothing_before C secret D t i (n ∷ ns) = (tt, nothing_before C secret D t i ns)

kept_order : (p e : AuditEvent) → p.timestamp ≡ e.timestamp → sort_events (e ∷ p ∷ []) ≡ e ∷ p ∷ []
unfolding sort_events insert_event
kept_order p e same = ground arith

same_text-none : (o a : Option String) {s : String} → o ≡ none → a ≡ some s → same_text o a ≡ false
unfolding same_text
same_text-none none (some s) h k = refl
same_text-none none none h k = cc
same_text-none (some x) a h k = cc

not_linked :
    (p e : AuditEvent) {signature : String}
    → p.previous_hash ≡ none
    → e.hmac_signature ≡ some signature
    → linked (some e) p ≡ false
unfolding linked
not_linked p e first signed = same_text-none p.previous_hash e.hmac_signature first signed

module _ (C : Codec) (secret : String) (D : Redis C.Bytes) (t : ℕ) (i : String) where
  verify_chain-verify_from :
      (s : D.Store) (l : List AuditEvent)
      → get_incident_events C secret D t i 100 s ≡ some l
      → verify_chain C secret D t i s ≡ some (verify_from C secret none l)
  unfolding verify_chain verdict
  verify_chain-verify_from s l h = rw h refl

  -- Where no event of the incident was there, any number of events that are logged in turn, each
  -- under a key of its own, at a later timestamp than the one before and still kept by Redis, leave a
  -- chain that is verified.
  pub verify_chain-log_all :
      (ns : List Entry) (s : D.Store)
      → Faithful C
      → D.lrange (index_key i) s ≡ []
      → ((u : ℕ) → D.get u (hash_key i) s ≡ none)
      → Proper C secret D t i ns
      → verify_chain C secret D t i (log_all C secret D t i ns s []).0 ≡ some true
  unfolding hash_in
  verify_chain-log_all ns s f none_there no_hash p =
      let empty : Holds C secret D t i s [] = record {
        index = none_there;
        hash = λ u. ap (hash_in C secret D) (no_hash u);
        stored = tt;
      } in
      let (h, c) =
        log_all-Holds C secret D t i f ns s [] p (nothing_before C secret D t i ns) empty tt in
      let (s', l) = log_all C secret D t i ns s [] in
      verify_chain-verify_from s' (sort_events (take 100 l))
        (get_incident_events-Holds C secret D t i f 99 s' l h)
      ∙ ap some (Chained-verify C secret (take 100 l) (Chained-take C secret 100 l c))

  -- A chain is verified exactly when the signature of each event that is read is the HMAC of the
  -- event without its signature, and, but for the first, its previous hash is the signature of the
  -- event before it.
  pub verify_chain-IsChain :
      (s : D.Store) (l : List AuditEvent)
      → get_incident_events C secret D t i 100 s ≡ some l
      → (verify_chain C secret D t i s ≡ some true) ↔ IsChain C secret l
  verify_chain-IsChain s l h =
      let (there, back) = verify_from-Linked C secret none l in
      let (split, join) = Linked-IsChain C secret none l in
      let same = verify_chain-verify_from s l h in
      ((λ v. split (there (unwrapped_true (sym same ∙ v)))), λ k. same ∙ ap some (back (join k)))

  -- An event that does not carry the HMAC of its content, as one that was changed in Redis and not
  -- signed again, makes the verification fail wherever it stands among the events that are read.
  pub tampering_found :
      (s : D.Store) (l : List AuditEvent) (e : AuditEvent)
      → get_incident_events C secret D t i 100 s ≡ some l
      → In e l
      → sealed C secret e ≡ false
      → verify_chain C secret D t i s ≡ some false
  tampering_found s l e h m broken =
      verify_chain-verify_from s l h
      ∙ ap some (elim (Bool-cases (verify_from C secret none l)) [
        | inl v ↦
            sealed_not C secret l e
              (Linked-sealed C secret none l e ((verify_from-Linked C secret none l).0 v) m) broken
        | inr v ↦ v
      ])

  -- A verified chain is still verified where Redis holds no more than a run of consecutive events of
  -- it: the removal of the first events, of the last ones or of all is not noticed.
  pub removal_missed :
      (s s' : D.Store) (a b c : List AuditEvent)
      → get_incident_events C secret D t i 100 s ≡ some (a ++ (b ++ c))
      → verify_chain C secret D t i s ≡ some true
      → get_incident_events C secret D t i 100 s' ≡ some b
      → verify_chain C secret D t i s' ≡ some true
  removal_missed s s' a b c h v h' =
      verify_chain-verify_from s' b h'
      ∙ ap some (
          verify_from-part C secret a b c
            (unwrapped_true (sym (verify_chain-verify_from s (a ++ (b ++ c)) h) ∙ v)))

  -- The link from the newer to the older of two events is false where the older is the first.
  reversed_pair :
      (p e : AuditEvent) (signature : String)
      → p.timestamp ≡ e.timestamp
      → p.previous_hash ≡ none
      → e.hmac_signature ≡ some signature
      → verify_from C secret none (sort_events (e ∷ p ∷ [])) ≡ false
  unfolding verify_from
  reversed_pair p e signature same first signed =
      ap (verify_from C secret none) (kept_order p e same)
      ∙ ground (arith, not_linked p e first signed)

  -- Two events that are logged with one timestamp as the first of their incident leave a chain that
  -- is not verified, though nothing was changed: the index has the newer first, and the sort keeps
  -- that order.
  pub equal_timestamps_break :
      (n m : Entry) (s : D.Store)
      → Faithful C
      → D.lrange (index_key i) s ≡ []
      → ((u : ℕ) → D.get u (hash_key i) s ≡ none)
      → t < n.now + ttl
      → t < m.now + ttl
      → hash_key i ≢ event_key i n.event_id
      → hash_key i ≢ event_key i m.event_id
      → event_key i m.event_id ≢ event_key i n.event_id
      → n.timestamp ≡ m.timestamp
      → verify_chain C secret D t i (log_all C secret D t i (n ∷ m ∷ []) s []).0 ≡ some false
  unfolding log_all log_event event_of hash_in
  equal_timestamps_break n m s f none_there no_hash ln lm kn km apart same =
      let empty : Holds C secret D t i s [] = record {
        index = none_there;
        hash = λ u. ap (hash_in C secret D) (no_hash u);
        stored = tt;
      } in
      let s₁ = (log_event C secret D i n s).0 in
      let e₁ = signed_event C secret D t i n s in
      let one : Holds C secret D t i s₁ (e₁ ∷ []) =
        log_event-Holds C secret D t i f n s [] (ln, kn, tt) empty in
      let two = log_event-Holds C secret D t i f m s₁ (e₁ ∷ []) (lm, km, (apart, tt)) one in
      let s₂ = (log_event C secret D i m s₁).0 in
      let e₂ = signed_event C secret D t i m s₁ in
      verify_chain-verify_from s₂ (sort_events (e₂ ∷ e₁ ∷ []))
        (get_incident_events-Holds C secret D t i f 99 s₂ (e₂ ∷ e₁ ∷ []) two)
      ∙ ap some (reversed_pair e₁ e₂ _ same (ap (hash_in C secret D) (no_hash n.now)) refl)
