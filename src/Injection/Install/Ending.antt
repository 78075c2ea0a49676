-- ===== src/Injection/Install/Ending.antt =====
-- How a recovery of internal/injection/injection_windows.go ends that meets no fault.
use bigducks_live.Base.{
  ◌≡◌, ◌⊎◌, inl, inr, refl, sym, subst, ap, ◌∙◌, true, false, List, [], Option, none, some,
  Bool-cases,
}
use bigducks_live.Base.Text.{Text}
use bigducks_live.Errors.{Error, failure}
use bigducks_live.Effects.{Machine, ignore, or_cleanup, act, act_cut, attempt, done, failed}
use bigducks_live.Effects.Logic.{done-Meets}
use bigducks_live.Injection.Disk.{Node, file, folder, Disk, stat, rename, remove_all}
use bigducks_live.Injection.Stub.{Paths, recoverable_entries}
use bigducks_live.Injection.Install.{set_stub_aside, recover_interrupted_install}
use bigducks_live.Injection.Install.Crash.{Safe}
use bigducks_live.Injection.Install.Recovery.{Settled, recover_interrupted_install-Settled}

module _ (original path : Text) (paths : Paths) where
  abbrev Secured : Disk → Type 0
  Secured = Safe original path paths

  abbrev working : Disk → Machine Disk
  working x = record { state = x; faults = [] }

  abbrev Completes : Disk → Type 0
  Completes x = (recover_interrupted_install (working x)).0 ≡ done tt

  -- A disk by what stands at the three places.
  abbrev placed : Disk → Option Node → Option Node → Disk
  placed x a i = record x { app_asar = a; installing_asar = i; partial_asar = none }

  placed_lem :
      (x : Disk) (a i : Option Node)
      → x.app_asar ≡ a
      → x.installing_asar ≡ i
      → x.partial_asar ≡ none
      → Completes (placed x a i)
      → Completes x
  placed_lem x a i ea ei ep = subst Completes (
      sym (
        ap (λ v. record x { app_asar = v }) ea
        ∙ ap (λ v. record x { app_asar = a; installing_asar = v }) ei
        ∙ ap (λ v. record x { app_asar = a; installing_asar = i; partial_asar = v }) ep))

  no_transaction : (x : Disk) (a : Option Node) → Completes (placed x a none)
  unfolding recover_interrupted_install stat act
  no_transaction x a = refl

  bare-Completes : (x : Disk) (s : Text) → Completes (placed x none (some (file s)))
  unfolding recover_interrupted_install stat act rename
  bare-Completes x s = refl

  stub-Completes :
      (x : Disk) (fs : List (Text × Text)) (s : Text)
      → recoverable_entries fs ≡ true
      → Completes (placed x (some (folder fs)) (some (file s)))
  unfolding recover_interrupted_install set_stub_aside stat rename act act_cut or_cleanup ignore
      attempt remove_all
  stub-Completes x fs s good = rw good refl

  abbrev manual_repair : Error
  manual_repair = failure "an ambiguous BIG DUCKS integration transaction needs manual repair"

  abbrev Refuses : Disk → Type 0
  Refuses x =
      ((recover_interrupted_install (working x)).0 ≡ failed manual_repair)
      × ((recover_interrupted_install (working x)).1.state ≡ x)

  placed_Refuses :
      (x : Disk) (fs : List (Text × Text)) (s : Text)
      → recoverable_entries fs ≡ false
      → Refuses (record x { app_asar = some (folder fs); installing_asar = some (file s) })
  unfolding recover_interrupted_install stat act
  placed_Refuses x fs s bad = rw bad (refl, refl)

  -- A stub stands there that recoverablePartialStub does not accept.
  abbrev pub Torn : Disk → Type 0
  Torn x =
      (fs : List (Text × Text)) × (x.app_asar ≡ some (folder fs))
      × (x.installing_asar ≡ some (file original))
      × (recoverable_entries fs ≡ false)

  Torn-Refuses : (x : Disk) → Torn x → Refuses x
  Torn-Refuses x (fs, there, aside, bad) =
      subst Refuses
        (sym (
          ap (λ v. record x { app_asar = v }) there
          ∙ ap (λ v. record x { app_asar = some (folder fs); installing_asar = v }) aside))
        (placed_Refuses x fs original bad)

  completes : (x : Disk) → Secured x → x.partial_asar ≡ none → Completes x ⊎ Torn x
  completes x (inl (inl (there, free, backed))) e = inl (
      placed_lem x (some (file original)) none there free e
        (no_transaction x (some (file original))))
  completes x (inl (inr (there, free, backed))) e =
      inl (placed_lem x _ none there free e (no_transaction x _))
  completes x (inr (inl (gone, aside, backed))) e =
      inl (placed_lem x none (some (file original)) gone aside e (bare-Completes x original))
  completes x (inr (inr (fs, there, parts, aside, backed))) e =
      elim (Bool-cases (recoverable_entries fs)) [
        | inl good ↦ inl (
            placed_lem x (some (folder fs)) (some (file original)) there aside e
              (stub-Completes x fs original good))
        | inr bad ↦ inr (fs, there, aside, bad)
      ]

  -- From wherever a run ended, with no partial stub of an older recovery there, a recovery that meets
  -- no fault ends in one of two ways. It succeeds, and nothing is left over. Or a stub stands there
  -- that recoverablePartialStub does not accept: then the recovery asks for a manual repair and changes
  -- nothing.
  pub recover_interrupted_install_ends :
      (x : Disk)
      → Safe original path paths x
      → x.partial_asar ≡ none
      → let r = recover_interrupted_install (record { state = x; faults = [] }) in
        ((r.0 ≡ done tt) × Settled original path paths r.1.state)
        ⊎ (Torn x
            × (r.0
                ≡ failed
                    (failure "an ambiguous BIG DUCKS integration transaction needs manual repair"))
            × (r.1.state ≡ x))
  recover_interrupted_install_ends x h e = elim (completes x h e) [
    | inl works_well ↦ inl (
      works_well,
      done-Meets (λ _. Settled original path paths) Secured Secured tt _
          (recover_interrupted_install-Settled original path paths (working x) h) works_well,
    )
    | inr torn ↦ inr (torn, (Torn-Refuses x torn).0, (Torn-Refuses x torn).1)
  ]
