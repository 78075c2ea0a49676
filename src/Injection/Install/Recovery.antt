-- ===== src/Injection/Install/Recovery.antt =====
-- The recovery of an interrupted transaction in internal/injection/injection_windows.go.
use bigducks_live.Base.{◌≡◌, ◌⊎◌, inl, inr, refl, subst, All, List, Option, none, some, Bool-cases}
use bigducks_live.Base.Text.{Text}
use bigducks_live.Effects.{Machine, ignore}
use bigducks_live.Effects.Logic.{
  Triple, Meets, pure-Triple, fail-Triple, bind-Triple, then-Triple, ignore-Triple,
  or_cleanup-Triple, fact-Triple, weaken-Triple,
}
use bigducks_live.Injection.Disk.{Node, file, folder, app, installing, partial, Disk, rename}
use bigducks_live.Injection.Disk.Rules.{stat-Triple, rename-Triple, remove_all-Triple}
use bigducks_live.Injection.Stub.{Paths, recoverable_entries}
use bigducks_live.Injection.Install.{
  stub_aside, set_stub_aside, recover_app, recover_from, recover_interrupted_install,
}
use bigducks_live.Injection.Install.Crash.{Part, Backed, Untouched, Bare, Stubbed, Integrated, Safe}

module _ (original path : Text) (paths : Paths) where
  abbrev Secured : Disk → Type 0
  Secured = Safe original path paths

  -- Nothing is left over of a transaction.
  abbrev pub Settled : Disk → Type 0
  Settled d = Untouched original path d ⊎ Integrated original path paths d

  abbrev Stands : List (Text × Text) → Disk → Type 0
  Stands fs x =
      (x.app_asar ≡ some (folder fs))
      × (x.installing_asar ≡ some (file original))
      × Backed original path x

  -- The stub was moved to `partial`.
  abbrev Aside : List (Text × Text) → Disk → Type 0
  Aside fs x = Bare original path x × (x.partial_asar ≡ some (folder fs))

  module _ (fs : List (Text × Text)) (parts : All (Part original path paths) fs) where
    Stands-Safe : (x : Disk) → Stands fs x → Secured x
    Stands-Safe x (there, aside, backed) = inr (inr (fs, there, parts, aside, backed))

    Aside-Safe : (x : Disk) → Aside fs x → Secured x
    Aside-Safe x (bare, _) = inr (inl bare)

    put_stub_back-Triple :
        {E' : Disk → Type 0}
        → Triple (Aside fs) (ignore (rename partial app)) (λ _. Secured) E' Secured
    put_stub_back-Triple =
        ignore-Triple {E = Secured} {Q = λ _. Secured}
          (rename-Triple partial app
            (λ x ((gone, aside, backed), there).
              (folder fs, there, gone, inr (inr (fs, refl, parts, aside, backed))))
            (λ x h. (Aside-Safe x h, Aside-Safe x h)))
          (λ _ x h. h) (λ x h. h)

    set_stub_aside-Triple :
        Triple
          (λ x. Stands fs x × (x.partial_asar ≡ none))
          set_stub_aside
          (λ _. Settled)
          Secured
          Secured
    unfolding set_stub_aside
    set_stub_aside-Triple =
        then-Triple
          (rename-Triple app partial {Q = Aside fs}
            (λ x ((there, aside, backed), free).
              (folder fs, there, free, ((refl, aside, backed), refl)))
            (λ x (h, _). (Stands-Safe x h, Stands-Safe x h)))
          (then-Triple
            (or_cleanup-Triple {E = Aside fs}
              (rename-Triple installing app {Q = Untouched original path}
                (λ x ((gone, aside, backed), there).
                  (file original, aside, gone, (refl, refl, backed)))
                (λ x h. (h, Aside-Safe x h)))
              put_stub_back-Triple)
            (ignore-Triple {E = Untouched original path} {Q = λ _. Untouched original path}
              (remove_all-Triple partial (λ x h. h)
                (λ x h. (h, inl (inl h), λ n. (h, inl (inl h)))))
              (λ _ x h. inl h) (λ x h. inl h)))

    stub_aside-Triple :
        (found : Option Node)
        → Triple
            (λ x. Stands fs x × (x.partial_asar ≡ found))
            (stub_aside found)
            (λ _. Settled)
            Secured
            Secured
    stub_aside-Triple none = set_stub_aside-Triple
    stub_aside-Triple (some n) = fail-Triple _ (λ x h. Stands-Safe x h.0)

  abbrev Unfinished : Option Node → Disk → Type 0
  Unfinished found x = (Bare original path x ⊎ Stubbed original path paths x) × (x.app_asar ≡ found)

  Unfinished-Safe : (found : Option Node) (x : Disk) → Unfinished found x → Secured x
  Unfinished-Safe found x (h, _) = inr h

  stands :
      (fs : List (Text × Text)) (x : Disk)
      → Unfinished (some (folder fs)) x
      → Stands fs x × All (Part original path paths) fs
  stands fs x (inl (gone, aside, backed), e) = absurd (cc)
  stands fs x (inr (gs, there, parts, aside, backed), e) =
      let same : gs ≡ fs = cc in
      ((e, aside, backed), subst (All (Part original path paths)) same parts)

  bare : (x : Disk) → Unfinished none x → Bare original path x
  bare x (inl h, e) = h
  bare x (inr (gs, there, good, aside, backed), e) = absurd (cc)

  recover_app-Triple :
      (node : Option Node)
      → Triple (Unfinished node) (recover_app node) (λ _. Settled) Secured Secured
  recover_app-Triple none =
      rename-Triple installing app
        (λ x h.
          let (gone, aside, backed) = bare x h in
          (file original, aside, gone, inl (refl, refl, backed)))
        (λ x h. (Unfinished-Safe none x h, Unfinished-Safe none x h))
  recover_app-Triple (some (file s)) = fail-Triple _ (Unfinished-Safe (some (file s)))
  recover_app-Triple (some (folder fs)) = elim (Bool-cases (recoverable_entries fs)) [
    | inr bad ↦ rw bad (fail-Triple _ (Unfinished-Safe (some (folder fs))))
    | inl good ↦ rw good (
        bind-Triple
          (stat-Triple partial
            {Q = λ found x.
              Stands fs x × All (Part original path paths) fs × (x.partial_asar ≡ found)}
            (λ x h. let (s, p) = stands fs x h in (s, p, refl))
            (λ x h.
              (Unfinished-Safe (some (folder fs)) x h, Unfinished-Safe (some (folder fs)) x h)))
          λ found.
            fact-Triple (λ x h. h.1)
              λ parts.
                weaken-Triple (λ x h. (h.0, h.2)) (λ _ x h. h) (stub_aside-Triple fs parts found))
  ]

  settled : (x : Disk) → Secured x → x.installing_asar ≡ none → Settled x
  settled x (inl h) e = h
  settled x (inr (inl (gone, aside, backed))) e = absurd (cc)
  settled x (inr (inr (fs, there, good, aside, backed))) e = absurd (cc)

  unsettled :
      (n : Node) (x : Disk)
      → Secured x
      → x.installing_asar ≡ some n
      → Bare original path x ⊎ Stubbed original path paths x
  unsettled n x (inl (inl (there, free, backed))) e = absurd (cc)
  unsettled n x (inl (inr (there, free, backed))) e = absurd (cc)
  unsettled n x (inr h) e = h

  recover_from-Triple :
      (node : Option Node)
      → Triple
          (λ x. Secured x × (x.installing_asar ≡ node))
          (recover_from node)
          (λ _. Settled)
          Secured
          Secured
  recover_from-Triple none = pure-Triple tt (λ x h. settled x h.0 h.1)
  recover_from-Triple (some n) =
      bind-Triple
        (stat-Triple app {Q = Unfinished} (λ x h. (unsettled n x h.0 h.1, refl))
          (λ x h. (h.0, h.0)))
        recover_app-Triple

  recover_interrupted_install-Triple :
      Triple
        (Safe original path paths)
        recover_interrupted_install
        (λ _. Settled)
        (Safe original path paths)
        (Safe original path paths)
  unfolding recover_interrupted_install
  recover_interrupted_install-Triple =
      bind-Triple
        (stat-Triple installing {Q = λ node x. Secured x × (x.installing_asar ≡ node)}
          (λ x h. (h, refl)) (λ x h. (h, h)))
        recover_from-Triple

  -- A recovery, from wherever a run ended (its stub may be any part of the whole one) and with any
  -- faults of its own. If it succeeds, nothing is
  -- left over: Discord's loader is in its place, or the finished stub is and the loader is backed up. If
  -- it fails or is stopped, the loader is still backed up, and in its place, set aside, or behind the
  -- finished stub.
  pub recover_interrupted_install-Settled :
      (s : Machine Disk)
      → Safe original path paths s.state
      → Meets
          (λ _. Settled)
          (Safe original path paths)
          (Safe original path paths)
          (recover_interrupted_install s)
  recover_interrupted_install-Settled s h = recover_interrupted_install-Triple.run s h
