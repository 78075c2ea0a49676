-- ===== src/Injection/Install/Crash.antt =====
-- The transaction of internal/injection/injection_windows.go and its recovery, with any fault at any
-- action: Discord's own loader is not lost.
use bigducks_live.Base.{
  ℕ, ◌≡◌, ◌⊎◌, ◌/◌, ◌%◌, ◌==◌, inl, inr, refl, sym, take, take_all, length, All, arith, by_test,
  true, false, List, [], ◌∷◌, Option, none, some,
}
use bigducks_live.Base.Text.{Text, codes, text_eq}
use bigducks_live.Effects.{ignore, or_cleanup}
use bigducks_live.Effects.Logic.{
  Triple, pure-Triple, fail-Triple, bind-Triple, then-Triple, weaken-Triple, ignore-Triple,
  or_cleanup-Triple, or-Triple,
}
use bigducks_live.Injection.Disk.{
  Node, file, folder, InjectionRecord, app, installing, Disk, at_place, put, find_backup, remaining,
  partly_removed, rename, remove_all, make_folder, write_in,
}
use bigducks_live.Injection.Disk.Rules.{
  stat-Triple, rename-Triple, rename_blocked-Triple, remove-Triple, remove_all-Triple,
  make_folder-Triple, write_in-Triple, write_records-Triple,
}
use bigducks_live.Injection.Stub.{Paths, stub_package_json, build_stub_index}
use bigducks_live.Injection.Install.{rollback, fill_stub, not_present, transaction}

abbrev pub finished_stub : Paths → Text → List (Text × Text)
finished_stub paths path =
    (codes "package.json", stub_package_json) ∷ (codes "index.js", build_stub_index paths path) ∷ []

-- `original` is the loader before the transaction, `path` that of its backup.
module _ (original path : Text) where
  abbrev pub Backed : Disk → Type 0
  Backed d = find_backup path d ≡ some original

  -- As before the transaction.
  abbrev pub Untouched : Disk → Type 0
  Untouched d = (d.app_asar ≡ some (file original)) × (d.installing_asar ≡ none) × Backed d

  -- The loader is set aside, and nothing is in its place.
  abbrev pub Bare : Disk → Type 0
  Bare d = (d.app_asar ≡ none) × (d.installing_asar ≡ some (file original)) × Backed d

  module _ (paths : Paths) where
    -- A file of the stub, complete or as a write that was cut short left it.
    abbrev pub Part : Text × Text → Type 0
    Part (name, bytes) =
        (n : ℕ) × (((name ≡ codes "package.json") × (bytes ≡ take n stub_package_json))
          ⊎ ((name ≡ codes "index.js") × (bytes ≡ take n (build_stub_index paths path))))

    -- The loader is set aside, and a stub is in its place, or parts of it.
    abbrev pub Stubbed : Disk → Type 0
    Stubbed d =
        (fs : List (Text × Text)) × (d.app_asar ≡ some (folder fs))
        × All Part fs
        × (d.installing_asar ≡ some (file original))
        × Backed d

    -- The stub is in place, and the loader is in its backup.
    abbrev pub Integrated : Disk → Type 0
    Integrated d =
        (d.app_asar ≡ some (folder (finished_stub paths path)))
        × (d.installing_asar ≡ none)
        × Backed d

    -- Wherever a run ended: the loader is backed up, and it is in its place, or set aside, or the
    -- finished stub is in its place.
    abbrev pub Safe : Disk → Type 0
    Safe d = (Untouched d ⊎ Integrated d) ⊎ (Bare d ⊎ Stubbed d)

    Bare-Safe : (x : Disk) → Bare x → Safe x
    Bare-Safe x h = inr (inl h)

    Stubbed-Safe : (x : Disk) → Stubbed x → Safe x
    Stubbed-Safe x h = inr (inr h)

    -- A rollback from either state.
    put_back-Safe :
        {E' : Disk → Type 0}
        → Triple (λ x. Bare x ⊎ Stubbed x) (ignore (rename installing app)) (λ _. Safe) E' (Safe)
    put_back-Safe =
        ignore-Triple {E = Safe} {Q = λ _. Safe}
          (or-Triple
            (rename-Triple installing app {Q = Safe}
              (λ x (gone, aside, backed).
                (file original, aside, gone, inl (inl (refl, refl, backed))))
              (λ x h. (Bare-Safe x h, Bare-Safe x h)))
            (rename_blocked-Triple installing app
              (λ x (fs, there, parts, aside, backed). (original, fs, aside, there))
              (λ x h. (Stubbed-Safe x h, Stubbed-Safe x h))))
          (λ _ x h. h) (λ x h. h)

    rollback-Bare-Safe : {E' : Disk → Type 0} → Triple Bare (rollback false) (λ _. Safe) E' (Safe)
    unfolding rollback
    rollback-Bare-Safe = weaken-Triple (λ x h. inl h) (λ a x h. h) put_back-Safe

    remaining-Part : (n : ℕ) (fs : List (Text × Text)) → All Part fs → All Part (remaining n fs)
    unfolding remaining
    remaining-Part n [] h = tt
    remaining-Part n (f ∷ fs) h =
        by_test (λ (gs : List (Text × Text)). All Part gs) (n % 2 == 0)
          (λ _. remaining-Part (n / 2) fs h.1) (λ _. (h.0, remaining-Part (n / 2) fs h.1))

    removed-Stubbed :
        (n : ℕ) (x : Disk) → Stubbed x → Stubbed (put app (partly_removed n (at_place app x)) x)
    removed-Stubbed n x (fs, there, parts, aside, backed) =
        rw there (remaining n fs, refl, remaining-Part n fs parts, aside, backed)

    cleared :
        (x : Disk)
        → Stubbed x
        → (Bare x ⊎ Stubbed x)
          × Safe x
          × ((n : ℕ)
              → (Bare (put app (partly_removed n (at_place app x)) x)
                  ⊎ Stubbed (put app (partly_removed n (at_place app x)) x))
                × Safe (put app (partly_removed n (at_place app x)) x))
    cleared x h = (
      inr h,
      Stubbed-Safe x h,
      λ n. (inr (removed-Stubbed n x h), inr (inr (removed-Stubbed n x h))),
    )

    clear-Triple :
        {E' : Disk → Type 0}
        → Triple Stubbed (ignore (remove_all app)) (λ _ x. Bare x ⊎ Stubbed x) E' Safe
    clear-Triple =
        ignore-Triple {E = λ x. Bare x ⊎ Stubbed x} {Q = λ _. Bare}
          (remove_all-Triple app {Q = Bare}
            (λ x (fs, there, parts, aside, backed). (refl, aside, backed)) cleared)
          (λ _ x h. inl h) (λ x h. h)

    rollback-Stubbed-Safe :
        {E' : Disk → Type 0} → Triple Stubbed (rollback true) (λ _. Safe) E' (Safe)
    unfolding rollback
    rollback-Stubbed-Safe = then-Triple clear-Triple put_back-Safe

    -- The stub's folder with some files, while the loader is aside.
    abbrev Holding : List (Text × Text) → Disk → Type 0
    Holding fs x =
        (x.app_asar ≡ some (folder fs)) × (x.installing_asar ≡ some (file original)) × Backed x

    abbrev package_only : List (Text × Text)
    package_only = (codes "package.json", stub_package_json) ∷ []

    whole_package : Part (codes "package.json", stub_package_json)
    whole_package = (
      length stub_package_json,
      inl (refl, sym (take_all (length stub_package_json) stub_package_json (omega arith))),
    )

    whole_index : Part (codes "index.js", build_stub_index paths path)
    whole_index =
        let index = build_stub_index paths path in
        (length index, inr (refl, sym (take_all (length index) index (omega arith))))

    write_package-Triple :
        Triple
          (Holding [])
          (write_in app (codes "package.json") stub_package_json)
          (λ _. Holding package_only)
          Stubbed
          Safe
    write_package-Triple =
        write_in-Triple app (codes "package.json") stub_package_json λ x (there, aside, backed).
          let before : Stubbed x = ([], there, tt, aside, backed) in
          let torn : (n : ℕ)
              → Stubbed (
                  put app (some (folder ((codes "package.json", take n stub_package_json) ∷ [])))
                    x) =
            λ n. (_, refl, ((n, inl (refl, refl)), tt), aside, backed) in
          (
            [],
            there,
            (refl, aside, backed),
            before,
            inr (inr before),
            λ n. (torn n, inr (inr (torn n))),
          )

    write_index-Triple :
        Triple
          (Holding package_only)
          (write_in app (codes "index.js") (build_stub_index paths path))
          (λ _. Holding (finished_stub paths path))
          Stubbed
          Safe
    unfolding text_eq
    write_index-Triple =
        write_in-Triple app (codes "index.js") (build_stub_index paths path)
          λ x (there, aside, backed).
            let before : Stubbed x = (package_only, there, (whole_package, tt), aside, backed) in
            let torn : (n : ℕ)
                → Stubbed (
                    put app
                      (some (
                        folder (
                          (codes "package.json", stub_package_json)
                          ∷ (codes "index.js", take n (build_stub_index paths path))
                          ∷ [])))
                      x) =
              λ n. (_, refl, (whole_package, ((n, inr (refl, refl)), tt)), aside, backed) in
            (
              package_only,
              there,
              (refl, aside, backed),
              before,
              inr (inr before),
              λ n. (torn n, inr (inr (torn n))),
            )

    held-Stubbed : (x : Disk) → Holding (finished_stub paths path) x → Stubbed x
    held-Stubbed x (there, aside, backed) =
        (finished_stub paths path, there, (whole_package, (whole_index, tt)), aside, backed)

    fill_stub-Triple :
        (resources digest : Text) (records : List InjectionRecord)
        → Triple
            (Holding [])
            (fill_stub paths resources path digest records)
            (λ _. Holding (finished_stub paths path))
            Stubbed
            (Safe)
    unfolding fill_stub
    fill_stub-Triple resources digest records = then-Triple write_package-Triple (
        then-Triple write_index-Triple (
          write_records-Triple _ (λ x h. h)
            (λ x h. (held-Stubbed x h, Stubbed-Safe x (held-Stubbed x h)))))

    not_present-Triple :
        (found : Option Node)
        → Triple
            (λ x. Untouched x × (found ≡ none))
            (not_present found)
            (λ _. Untouched)
            (Safe)
            (Safe)
    not_present-Triple none = pure-Triple tt (λ x h. h.0)
    not_present-Triple (some n) = fail-Triple _ (λ x h. absurd (cc h.1))

    Untouched-Safe : (x : Disk) → Untouched x → Safe x × Safe x
    Untouched-Safe x h = (inl (inl h), inl (inl h))

    make_stub-Triple :
        Triple Bare (or_cleanup (make_folder app) (rollback false)) (λ _. Holding []) (Safe) (Safe)
    make_stub-Triple =
        or_cleanup-Triple
          (make_folder-Triple app (λ x (gone, aside, backed). (gone, (refl, aside, backed)))
            (λ x h. (h, Bare-Safe x h)))
          rollback-Bare-Safe

    -- The transaction of Ensure, whatever actions fail and wherever the machine stops, from a loader that
    -- is backed up. If it succeeds, the finished stub is in place and nothing is left over. Otherwise,
    -- whether its rollback works or not, the loader is in its place or set aside, and it is backed up.
    pub transaction-Safe :
        (resources digest : Text) (records : List InjectionRecord)
        → Triple Untouched
            (transaction paths resources path digest records)
            (λ _. Integrated)
            (Safe)
            (Safe)
    unfolding transaction
    transaction-Safe resources digest records =
        bind-Triple
          (stat-Triple installing {Q = λ found x. Untouched x × (found ≡ none)}
            (λ x (there, free, backed). ((there, free, backed), free)) Untouched-Safe)
          λ found. then-Triple (not_present-Triple found) (
            then-Triple
              (rename-Triple app installing
                (λ x (there, free, backed). (file original, there, free, (refl, refl, backed)))
                Untouched-Safe)
              (then-Triple make_stub-Triple (
                then-Triple
                  (or_cleanup-Triple (fill_stub-Triple resources digest records)
                    rollback-Stubbed-Safe)
                  (remove-Triple installing
                    (λ x (there, aside, backed). (file original, aside, (there, refl, backed)))
                    (λ x h.
                      (Stubbed-Safe x (held-Stubbed x h), Stubbed-Safe x (held-Stubbed x h)))))))
