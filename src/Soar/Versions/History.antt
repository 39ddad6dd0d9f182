-- ===== src/Soar/Versions/History.antt =====
-- The history of a playbook: what a manager keeps, and what a restart loses.
use cobalto.Base.{
  ℕ, ◌≡◌, refl, sym, ◌∙◌, ap, ◌⊎◌, inl, inr, String, Bool, true, false, Option, none, some, List,
  [], ◌∷◌, ◌++◌, string_eq, ◌==◌, if◌then◌else◌, find, arith, Option-cases, Bool-cases,
}
use cobalto.Base.Dict.{lookup, insert, lookup-insert, lookup-insert_self}
use cobalto.Soar.Playbook.{Playbook}
use cobalto.Soar.Versions.{
  PlaybookVersion, Storage, IsLossless, Manager, or_none, entry_of, save_version, load, versions_of,
  get_versions, has_version, get_version, last_of, get_latest_version, snapshot_of,
  revert_to_version,
}

abbrev answer : {File : Type 0} → Manager File × List PlaybookVersion → List PlaybookVersion
answer (m, vs) = vs

abbrev pub first_of {ℓ} : {A : Type ℓ} → Option A → Option A → Option A
first_of none o = o
first_of (some a) o = some a

find-append :
    (p : PlaybookVersion → Bool) (vs ws : List PlaybookVersion)
    → find p (vs ++ ws) ≡ first_of (find p vs) (find p ws)
find-append p [] ws = refl
find-append p (v ∷ vs) ws = elim (Bool-cases (p v)) [
  | inl h ↦ rw h refl
  | inr h ↦ rw h (find-append p vs ws)
]

last_of-append : (vs : List PlaybookVersion) (v : PlaybookVersion) → last_of (vs ++ v ∷ []) ≡ some v
unfolding last_of
last_of-append [] v = refl
last_of-append (w ∷ []) v = refl
last_of-append (w ∷ x ∷ vs) v = last_of-append (x ∷ vs) v

snapshot_of-first_of :
    (v w : Option PlaybookVersion)
    → snapshot_of (first_of v w) ≡ first_of (snapshot_of v) (snapshot_of w)
unfolding snapshot_of
snapshot_of-first_of none w = refl
snapshot_of-first_of (some v) w = refl

one_snapshot :
    (b : Bool) (v : PlaybookVersion)
    → snapshot_of (if b then some v else none) ≡ (if b then some v.playbook_snapshot else none)
unfolding snapshot_of
one_snapshot true v = refl
one_snapshot false v = refl

-- The history of the id is in memory, or there is none.
abbrev pub IsLoaded : {File : Type 0} → String → Manager File → Type 0
IsLoaded id m = lookup id m.versions ≡ none → lookup id m.files ≡ none

module _ {File : Type 0} (storage : Storage File) where
  -- What a file holds, if there is one.
  abbrev pub read_back : Option File → Option (List PlaybookVersion)
  read_back none = none
  read_back (some file) = some (storage.read file)

  -- What `get_versions` answers.
  abbrev pub history : String → Manager File → List PlaybookVersion
  history id m = (get_versions storage id m).1

  -- What is in memory is what the file holds.
  abbrev pub IsSynced : Manager File → Type 0
  IsSynced m =
      (id : String) (vs : List PlaybookVersion)
      → lookup id m.versions ≡ some vs
      → read_back (lookup id m.files) ≡ some vs

  get_versions-cases :
      (id : String) (m : Manager File)
      → ((vs : List PlaybookVersion) × (lookup id m.versions ≡ some vs)
          × (get_versions storage id m ≡ (m, vs)))
        ⊎ (((vs : List PlaybookVersion) × (read_back (lookup id m.files) ≡ some vs)
              × (lookup id m.versions ≡ none)
              × (get_versions storage id m ≡ (record m { versions = insert id vs m.versions }, vs)))
            ⊎ ((lookup id m.versions ≡ none)
                × (lookup id m.files ≡ none)
                × (get_versions storage id m ≡ (m, []))))
  unfolding get_versions versions_of load
  get_versions-cases id m = elim (Option-cases (lookup id m.versions)) [
    | inr (vs, h) ↦ inl (vs, h, rw h refl)
    | inl h ↦ elim (Option-cases (lookup id m.files)) [
      | inr (file, k) ↦ inr (inl (storage.read file, ap read_back k, h, rw (h, k) refl))
      | inl k ↦ inr (inr (h, k, rw (h, k) refl))
    ]
  ]

  pub get_versions-IsSynced :
      (id : String) (m : Manager File) → IsSynced m → IsSynced (get_versions storage id m).0
  get_versions-IsSynced id m h = elim (get_versions-cases id m) [
    | inl (vs, k, e) ↦ rw e h
    | inr (inl (vs, k, l, e)) ↦ rw e λ j ws found.
        ground (arith, k, found, h j ws, string_eq.same_iff id j, lookup-insert id j vs m.versions)
    | inr (inr (k, l, e)) ↦ rw e h
  ]

  get_versions-files :
      (id : String) (m : Manager File) → (get_versions storage id m).0.files ≡ m.files
  get_versions-files id m = elim (get_versions-cases id m) [
    | inl (vs, k, e) ↦ rw e refl
    | inr (inl (vs, k, l, e)) ↦ rw e refl
    | inr (inr (k, l, e)) ↦ rw e refl
  ]

  -- While memory and files agree, the history is the one of the file.
  pub synced-history :
      (id : String) (m : Manager File)
      → IsSynced m
      → history id m ≡ or_none (read_back (lookup id m.files))
  synced-history id m h = elim (get_versions-cases id m) [
    | inl (vs, k, e) ↦ ap answer e ∙ sym (ap or_none (h id vs k))
    | inr (inl (vs, k, l, e)) ↦ ap answer e ∙ sym (ap or_none k)
    | inr (inr (k, l, e)) ↦ ap answer e ∙ sym (ap (λ (o : Option File). or_none (read_back o)) l)
  ]

  loaded-history :
      (id : String) (m : Manager File)
      → IsLoaded id m
      → or_none (lookup id m.versions) ≡ history id m
  loaded-history id m h = elim (get_versions-cases id m) [
    | inl (vs, k, e) ↦ ap or_none k ∙ sym (ap answer e)
    | inr (inl (vs, k, l, e)) ↦ let clash : none ≡ some vs = sym (ap read_back (h l)) ∙ k in cc
    | inr (inr (k, l, e)) ↦ ap or_none k ∙ sym (ap answer e)
  ]

module _ {File : Type 0} (storage : Storage File) (calculate_checksum : Playbook → String) where
  pub save_version-IsSynced :
      IsLossless storage
      → (now : ℕ) (created_by changes : String) (p : Playbook) (m : Manager File)
      → IsSynced storage m
      → IsSynced storage (save_version storage calculate_checksum now created_by changes p m).0
  unfolding save_version
  save_version-IsSynced lossless now created_by changes p m h j vs found =
      let id = p.metadata.id in
      let all =
        or_none (lookup id m.versions)
        ++ entry_of calculate_checksum now created_by changes p ∷ [] in
      ground (
        arith,
        found,
        h j vs,
        string_eq.same_iff id j,
        lookup-insert id j all m.versions,
        lookup-insert id j (storage.write all) m.files,
        lossless all,
      )

  -- The history after a save, from what memory held.
  pub save_version-history :
      (now : ℕ) (created_by changes : String) (p : Playbook) (m : Manager File)
      → history storage p.metadata.id
          (save_version storage calculate_checksum now created_by changes p m).0
        ≡ or_none (lookup p.metadata.id m.versions)
          ++ entry_of calculate_checksum now created_by changes p ∷ []
  unfolding save_version get_versions versions_of
  save_version-history now created_by changes p m =
      let id = p.metadata.id in
      let all =
        or_none (lookup id m.versions)
        ++ entry_of calculate_checksum now created_by changes p ∷ [] in
      let m' = (save_version storage calculate_checksum now created_by changes p m).0 in
      ap (λ (found : Option (List PlaybookVersion)). (versions_of storage found id m').1)
        (lookup-insert_self id all m.versions)

  -- After a save of a playbook whose history is loaded, the latest version is the saved one, and a
  -- revert to a version gives what it gave before, or else the saved playbook if this is its
  -- version.
  pub revert_to_version-save_version :
      (now : ℕ) (created_by changes version : String) (p : Playbook) (m : Manager File)
      → IsLoaded p.metadata.id m
      → let (m', entry) = save_version storage calculate_checksum now created_by changes p m in
        let id = p.metadata.id in
        ((get_latest_version storage id m').1 ≡ some entry)
        × ((revert_to_version storage id version m').1
            ≡ first_of
                (revert_to_version storage id version m).1
                (if p.metadata.version == version then some p else none))
  unfolding get_latest_version revert_to_version get_version save_version
  revert_to_version-save_version now created_by changes version p m loaded =
      let id = p.metadata.id in
      let entry = entry_of calculate_checksum now created_by changes p in
      let m' = (save_version storage calculate_checksum now created_by changes p m).0 in
      let kept : history storage id m' ≡ history storage id m ++ entry ∷ [] =
        save_version-history now created_by changes p m
        ∙ ap (λ (vs : List PlaybookVersion). vs ++ entry ∷ [])
            (loaded-history storage id m loaded) in
      (
        ap last_of kept ∙ last_of-append (history storage id m) entry,
        ap (λ (vs : List PlaybookVersion). snapshot_of (find (has_version version) vs)) kept
            ∙ ap snapshot_of (find-append (has_version version) (history storage id m) (entry ∷ []))
            ∙ snapshot_of-first_of (find (has_version version) (history storage id m))
                (find (has_version version) (entry ∷ []))
            ∙ ap (first_of (revert_to_version storage id version m).1)
                (one_snapshot (p.metadata.version == version) entry),
      )
