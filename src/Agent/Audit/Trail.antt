-- ===== src/Agent/Audit/Trail.antt =====
-- What `log_event` leaves in Redis, and what `verify_chain` of
-- frameworks/agent-sdk/src/cobalto/agent/audit.py makes of it.
use cobalto.Base.{
  ℕ, zero, suc, ◌+◌, ◌<◌, ◌≡◌, ◌≢◌, refl, ◌∙◌, ap, String, true, Option, none, some, List, [], ◌∷◌,
  take, map, All, string_eq, ==_true, ==_false,
}
use cobalto.Agent.Redis.{Redis}
use cobalto.Agent.Audit.{
  AuditEvent, Codec, Faithful, Entry, to_dict, event_key, index_key, hash_key, ttl, event_of,
  lrange_to, sign_event, sealed, linked, same_text, sort_events, hash_in, log_event, loaded,
  get_event, gathered, get_events, optional_sort, get_incident_events,
}
use cobalto.Agent.Audit.Chain.{newest, Older, Chained}

abbrev pub newest_hash : Option AuditEvent → Option String
newest_hash none = none
newest_hash (some e) = e.hmac_signature

same_text_self : (a : Option String) → same_text a a ≡ true
unfolding same_text
same_text_self none = refl
same_text_self (some a) = ==_true a

module _ (C : Codec) (secret : String) (D : Redis C.Bytes) (t : ℕ) (i : String) where
  -- The event is there at the time t.
  abbrev pub Stored : D.Store → AuditEvent → Type 0
  Stored s e =
      (hash_key i ≢ event_key i e.event_id)
      × (D.get t (event_key i e.event_id) s ≡ some (C.dumps (to_dict C e)))

  -- The store holds the events of the incident, the newest first.
  pub record Holds (s : D.Store) (l : List AuditEvent) : Type 0 where
    pub index : D.lrange (index_key i) s ≡ map (λ (e : AuditEvent). e.event_id) l
    pub hash : (u : ℕ) → hash_in C secret D (D.get u (hash_key i) s) ≡ newest_hash (newest l)
    pub stored : All (Stored s) l

  get_events-Holds :
      Faithful C
      → (s : D.Store) (l : List AuditEvent) → All (Stored s) l
      → get_events C secret D t i (map (λ (e : AuditEvent). e.event_id) l) s ≡ some l
  unfolding get_events get_event loaded gathered
  get_events-Holds f s [] h = refl
  get_events-Holds f s (e ∷ l) ((k, g), h) =
      rw (get_events-Holds f s l h, g, f.dumps_nonempty (to_dict C e), f.load-dumps e) refl

  abbrev pub signed_event : Entry → D.Store → AuditEvent
  signed_event n s = (log_event C secret D i n s).1

  -- The key of the entry is apart from that of the last hash and from those of the events.
  abbrev pub IsFresh : Entry → List AuditEvent → Type 0
  IsFresh n l =
      (t < n.now + ttl)
      × (hash_key i ≢ event_key i n.event_id)
      × All (λ (e : AuditEvent). event_key i n.event_id ≢ event_key i e.event_id) l

  Stored-after :
      (n : Entry) (s : D.Store) (l : List AuditEvent)
      → All (λ (e : AuditEvent). event_key i n.event_id ≢ event_key i e.event_id) l
      → All (Stored s) l
      → All (Stored (log_event C secret D i n s).0) l
  unfolding log_event
  Stored-after n s [] a h = tt
  Stored-after n s (e ∷ l) (k, a) ((m, g), h) = (
    (
      m,
      rw
          (
            D.get-set,
            ==_false m,
            D.get-lpush,
            D.get-setex_other t n.now (event_key i n.event_id) (event_key i e.event_id) ttl _ s k,
          )
          g,
    ),
    Stored-after n s l a h,
  )

  pub log_event-Holds :
      Faithful C
      → (n : Entry) (s : D.Store) (l : List AuditEvent) → IsFresh n l
      → Holds s l
      → Holds (log_event C secret D i n s).0 (signed_event n s ∷ l)
  unfolding log_event event_of
  log_event-Holds f n s l (early, apart, a) h = record {
    index = rw (D.lrange-set, D.lrange-lpush, ==_true (index_key i), D.lrange-setex, h.index) refl;
    hash = λ u. rw (D.get-set, ==_true (hash_key i), hash_in, f.decode-encode) refl;
    stored = (
      (
        apart,
        rw (D.get-set, ==_false apart, D.get-lpush)
            (D.get-setex_before t n.now (event_key i n.event_id) ttl _ s early),
      ),
      Stored-after n s l a h.stored,
    );
  }

  -- The event that is logged is sealed and linked to the newest.
  pub signed_event-sealed : (n : Entry) (s : D.Store) → sealed C secret (signed_event n s) ≡ true
  unfolding log_event sealed event_of
  signed_event-sealed n s =
      ==_true (sign_event C secret (event_of i (hash_in C secret D (D.get n.now (hash_key i) s)) n))

  pub signed_event-linked :
      (n : Entry) (s : D.Store) (l : List AuditEvent)
      → Holds s l
      → linked (newest l) (signed_event n s) ≡ true
  unfolding log_event event_of linked
  signed_event-linked n s [] h = refl
  signed_event-linked n s (e ∷ l) h =
      ap (λ (o : Option String). same_text o e.hmac_signature) (h.hash n.now)
      ∙ same_text_self e.hmac_signature

  -- The events are logged in turn; the newest comes first.
  unfoldable pub log_all : List Entry → D.Store → List AuditEvent → D.Store × List AuditEvent
  log_all [] s l = (s, l)
  log_all (n ∷ ns) s l = let (s', e) = log_event C secret D i n s in log_all ns s' (e ∷ l)

  -- What the entries must be: still kept at t, with keys of their own, and each later than the one
  -- before.
  abbrev pub Before : Entry → Entry → Type 0
  Before n m = (event_key i m.event_id ≢ event_key i n.event_id) × (n.timestamp < m.timestamp)

  abbrev pub Proper : List Entry → Type 0
  Proper [] = Unit
  Proper (n ∷ ns) =
      (t < n.now + ttl) × (hash_key i ≢ event_key i n.event_id) × All (Before n) ns × Proper ns

  abbrev pub Precedes : Entry → AuditEvent → Type 0
  Precedes m e = (event_key i m.event_id ≢ event_key i e.event_id) × (e.timestamp < m.timestamp)

  keys_and_times :
      (m : Entry) (l : List AuditEvent)
      → All (Precedes m) l
      → All (λ (e : AuditEvent). event_key i m.event_id ≢ event_key i e.event_id) l
        × All (Older m.timestamp) l
  keys_and_times m [] a = (tt, tt)
  keys_and_times m (e ∷ l) ((k, o), a) = let (ks, os) = keys_and_times m l a in ((k, ks), (o, os))

  -- After one more event
  precedence_kept :
      (n : Entry) (s : D.Store) (l : List AuditEvent) (ns : List Entry)
      → All (Before n) ns
      → All (λ (m : Entry). All (Precedes m) l) ns
      → All (λ (m : Entry). All (Precedes m) (signed_event n s ∷ l)) ns
  unfolding log_event event_of
  precedence_kept n s l [] b a = tt
  precedence_kept n s l (m ∷ ns) (b, bs) (a, as') = ((b, a), precedence_kept n s l ns bs as')

  pub log_all-Holds :
      Faithful C
      → (ns : List Entry) (s : D.Store) (l : List AuditEvent) → Proper ns
      → All (λ (m : Entry). All (Precedes m) l) ns
      → Holds s l
      → Chained C secret l
      → let (s', l') = log_all ns s l in Holds s' l' × Chained C secret l'
  unfolding log_all log_event event_of
  log_all-Holds f [] s l p a h c = (h, c)
  log_all-Holds f (n ∷ ns) s l (early, apart, b, p) (a, as') h c =
      let (keys, older) = keys_and_times n l a in
      let c' : Chained C secret (signed_event n s ∷ l) =
        (signed_event-sealed n s, signed_event-linked n s l h, older, c) in
      log_all-Holds f ns (log_event C secret D i n s).0 (signed_event n s ∷ l) p
        (precedence_kept n s l ns b as') (log_event-Holds f n s l (early, apart, keys) h) c'

  take-map :
      (k : ℕ) (l : List AuditEvent)
      → take k (map (λ (e : AuditEvent). e.event_id) l)
        ≡ map (λ (e : AuditEvent). e.event_id) (take k l)
  take-map zero l = refl
  take-map (suc k) [] = refl
  take-map (suc k) (e ∷ l) = ap (◌∷◌ e.event_id) (take-map k l)

  All-take : (P : AuditEvent → Type 0) (k : ℕ) (l : List AuditEvent) → All P l → All P (take k l)
  All-take P zero l a = tt
  All-take P (suc k) [] a = tt
  All-take P (suc k) (e ∷ l) (p, a) = (p, All-take P k l a)

  -- The newest events, sorted.
  pub get_incident_events-Holds :
      Faithful C
      → (k : ℕ) (s : D.Store) (l : List AuditEvent) → Holds s l
      → get_incident_events C secret D t i (suc k) s ≡ some (sort_events (take (suc k) l))
  unfolding get_incident_events lrange_to optional_sort
  get_incident_events-Holds f k s l h =
      rw
        (
          h.index,
          take-map (suc k) l,
          get_events-Holds f s (take (suc k) l) (All-take (Stored s) (suc k) l h.stored),
        )
        refl
