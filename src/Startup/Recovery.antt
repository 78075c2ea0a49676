-- ===== src/Startup/Recovery.antt =====
-- What Discord's own startup value was, over any runs of internal/startup/registry_windows.go.
use bigducks_live.Base.{
  ◌≡◌, ◌⊎◌, inl, inr, refl, ap, ◌∙◌, Bool, true, false, ◌||◌, [], Option, none, some, Bool-cases,
}
use bigducks_live.Base.Text.{Text, text_eq, text_eq_iff, is_empty}
use bigducks_live.Effects.Logic.{
  Triple, pure-Triple, fail-Triple, bind-Triple, then-Triple, weaken-Triple, ignore-Triple,
  or_cleanup-Triple, known-Triple, fact-Triple,
}
use bigducks_live.Startup.{
  discord_value, startup_value, MetadataFile, Registry, Manager, metadata_at, command_for,
  stored_original, remove_direct, take_over, take_over_again, take_over_moved, install_with,
  install,
}
use bigducks_live.Startup.Rules.{
  get_string-Triple, set_string-Triple, delete_value-Triple, read_metadata-Triple,
  write_metadata-Triple, find_metadata-written,
}

abbrev pub text_of : Option Text → Text
text_of none = []
text_of (some v) = v

abbrev pub is_present : Option Text → Bool
is_present none = false
is_present (some v) = true

-- `original` is Discord's own startup value, if it had one; the metadata stands at `path`.
module _ (original : Option Text) (path : Text) where
  abbrev pub Remembers : MetadataFile → Type 0
  Remembers m = (m.original_value ≡ text_of original) × (m.original_present ≡ is_present original)

  abbrev pub Recorded : MetadataFile → Registry → Type 0
  Recorded m x =
      (metadata_at path x ≡ some m) × Remembers m × ((x.discord ≡ original) ⊎ (x.discord ≡ none))

  abbrev pub Pristine : Registry → Type 0
  Pristine x = (metadata_at path x ≡ none) × (x.discord ≡ original)

  -- The value stands in its place and nothing is recorded, or it is recorded.
  abbrev pub Recoverable : Registry → Type 0
  Recoverable x = Pristine x ⊎ ((m : MetadataFile) × Recorded m x)

  -- The entry stands for a helper, which the record names.
  abbrev pub Installed : Manager → Registry → Type 0
  Installed m x =
      (stored : MetadataFile) × Recorded stored x
      × (stored.helper_path ≡ m.helper)
      × (x.startup ≡ some (command_for m.helper))

  pub Recorded-Recoverable :
      (m : MetadataFile) (x : Registry) → Recorded m x → Recoverable x × Recoverable x
  Recorded-Recoverable m x h = (inr (m, h), inr (m, h))

  remembered : (helper : Text) → Remembers (stored_original helper original)
  remembered helper =
      elim original
        as (λ k.
          ((stored_original helper k).original_value ≡ text_of k)
          × ((stored_original helper k).original_present ≡ is_present k)) [
            | none ↦ (refl, refl)
            | some v ↦ (refl, refl)
          ]

  discord_kept : (x : Registry) → Recoverable x → (x.discord ≡ original) ⊎ (x.discord ≡ none)
  discord_kept x (inl h) = inl h.1
  discord_kept x (inr (m, h)) = h.2

  pub recorded :
      (stored : MetadataFile) (x : Registry)
      → Recoverable x
      → metadata_at path x ≡ some stored
      → Recorded stored x
  recorded stored x (inl h) e = absurd (cc)
  recorded stored x (inr (s, (there, known, kept))) e =
      let same : s ≡ stored = cc in rw (← same) (there, known, kept)

  pub pristine : (x : Registry) → Recoverable x → metadata_at path x ≡ none → x.discord ≡ original
  pristine x (inl h) e = h.1
  pristine x (inr (s, (there, known, kept))) e = absurd (cc)

  module _ (helper : Text) where
    abbrev m : Manager
    m = record { metadata_path = path; helper = helper }

    -- The entry was just written.
    abbrev Entered : MetadataFile → Registry → Type 0
    Entered stored x =
        Recorded stored x
        × (stored.helper_path ≡ m.helper)
        × (x.startup ≡ some (command_for m.helper))

    entered :
        (stored : MetadataFile) (x : Registry) → Entered stored x → Recoverable x × Recoverable x
    entered stored x h = Recorded-Recoverable stored x h.0

    remove_direct-Triple :
        (stored : MetadataFile) (found : Option Text)
        → Triple (Entered stored) (remove_direct found) (λ _. Installed m) Recoverable Recoverable
    remove_direct-Triple stored none = pure-Triple tt (λ x (h, e, s). (stored, h, e, s))
    remove_direct-Triple stored (some v) =
        or_cleanup-Triple {E = Recorded stored}
          (delete_value-Triple discord_value
            (λ x ((there, known, kept), e, s). (stored, (there, known, inr refl), e, s))
            (λ x h. (h.0, inr (stored, h.0))))
          (ignore-Triple {E = Recoverable} {Q = λ _. Recorded stored}
            (delete_value-Triple startup_value (λ x h. h) (Recorded-Recoverable stored))
            (λ _ x h. inr (stored, h)) (λ x h. h))

    take_over-Triple :
        (stored : MetadataFile)
        → Remembers stored
        → stored.helper_path ≡ m.helper
        → Triple Recoverable (take_over m stored) (λ _. Installed m) Recoverable Recoverable
    unfolding take_over
    take_over-Triple stored known same =
        then-Triple
          (write_metadata-Triple path stored {Q = Recorded stored}
            (λ x h. (find_metadata-written path stored _, known, discord_kept x h)) (λ x h. (h, h)))
          (then-Triple
            (set_string-Triple startup_value (command_for m.helper) {Q = Entered stored}
              (λ x h. (h, same, refl)) (Recorded-Recoverable stored))
            (bind-Triple
              (get_string-Triple discord_value {Q = λ _. Entered stored} (λ x h. h)
                (entered stored))
              (remove_direct-Triple stored)))

    -- What Install has read.
    abbrev Read : Option MetadataFile → Option Text → Registry → Type 0
    Read stored current x = Recoverable x × (metadata_at path x ≡ stored) × (x.startup ≡ current)

    read :
        (stored : Option MetadataFile) (current : Option Text) (x : Registry)
        → Read stored current x
        → Recoverable x × Recoverable x
    read stored current x h = (h.0, h.0)

    take_over_again-Triple :
        (stored : MetadataFile) (current : Option Text)
        → stored.helper_path ≡ m.helper
        → Triple
            (Read (some stored) current)
            (take_over_again m stored current)
            (λ _. Installed m)
            Recoverable
            Recoverable
    take_over_again-Triple stored none same =
        fact-Triple (λ x h. (recorded stored x h.0 h.1).1)
          λ known. weaken-Triple (λ x h. h.0) (λ _ x h. h) (take_over-Triple stored known same)
    take_over_again-Triple stored (some current) same =
        elim (Bool-cases (text_eq current (command_for m.helper))) [
          | inl ours ↦ rw ours (
              pure-Triple tt λ x (h, e, there).
                (stored, recorded stored x h e, same, there ∙ ap some ((text_eq_iff _ _).0 ours)))
          | inr other ↦ rw other (fail-Triple _ (λ x h. h.0))
        ]

    take_over_moved-Triple :
        (stored : MetadataFile) (current : Option Text)
        → Triple
            (Read (some stored) current)
            (take_over_moved m stored current)
            (λ _. Installed m)
            Recoverable
            Recoverable
    take_over_moved-Triple stored none = fail-Triple _ (λ x h. h.0)
    take_over_moved-Triple stored (some current) =
        elim (Bool-cases (text_eq current (command_for stored.helper_path))) [
          | inl ours ↦ rw ours (
              fact-Triple (λ x h. (recorded stored x h.0 h.1).1)
                λ known.
                  weaken-Triple (λ x h. h.0) (λ _ x h. h)
                    (take_over-Triple (record stored { helper_path = m.helper }) known refl))
          | inr other ↦ rw other (fail-Triple _ (λ x h. h.0))
        ]

    install_with-Triple :
        (stored : Option MetadataFile) (current : Option Text)
        → Triple
            (Read stored current)
            (install_with m stored current)
            (λ _. Installed m)
            Recoverable
            Recoverable
    install_with-Triple (some stored) current =
        elim (Bool-cases (text_eq stored.helper_path m.helper)) [
          | inl same ↦ rw same (take_over_again-Triple stored current ((text_eq_iff _ _).0 same))
          | inr other ↦ rw other (take_over_moved-Triple stored current)
        ]
    install_with-Triple none (some current) = fail-Triple _ (λ x h. h.0)
    install_with-Triple none none =
        bind-Triple
          (get_string-Triple discord_value {Q = λ found x. Recoverable x × (found ≡ original)}
            (λ x (h, e, _). (h, pristine x h e)) (read none none))
          λ found.
            known-Triple (λ v. take_over m (stored_original m.helper v)) original found
              (take_over-Triple (stored_original m.helper original) (remembered m.helper)
                (elim original as (λ v. (stored_original m.helper v).helper_path ≡ m.helper) [
                  | none ↦ refl
                  | some v ↦ refl
                ]))

    -- Install leaves the value recoverable in any case, and when it succeeds the entry stands.
    pub install-Triple :
        Triple Recoverable
          (install (record { metadata_path = path; helper = helper }))
          (λ _. Installed (record { metadata_path = path; helper = helper }))
          Recoverable
          Recoverable
    unfolding install
    install-Triple = elim (Bool-cases (is_empty m.helper || is_empty m.metadata_path)) [
      | inl missing ↦ rw missing (fail-Triple _ (λ x h. h))
      | inr given ↦ rw given (
          bind-Triple
            (read_metadata-Triple path
              {Q = λ stored x. Recoverable x × (metadata_at path x ≡ stored)} (λ x h. (h, refl))
              (λ x h. (h, h)))
            λ stored.
              bind-Triple
                (get_string-Triple startup_value {Q = Read stored} (λ x (h, e). (h, e, refl))
                  (λ x h. (h.0, h.0)))
                λ current. install_with-Triple stored current)
    ]
