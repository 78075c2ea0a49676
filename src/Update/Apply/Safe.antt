-- ===== src/Update/Apply/Safe.antt =====
-- What an update of internal/update/apply.go leaves in the place of the program.
use bigducks_live.Base.{
  ◌≡◌, ◌⊎◌, inl, inr, refl, true, false, not, ◌&&◌, Option, none, some, length, by_test,
}
use bigducks_live.Base.Int.{pos}
use bigducks_live.Base.Text.{Text, text_eq, is_empty, equal_fold}
use bigducks_live.Errors.{Error, Result, ok, err}
use bigducks_live.Effects.{Machine, ignore, fail, ◌>>◌}
use bigducks_live.Effects.Logic.{
  Triple, Meets, Caught, pure-Triple, fail-Triple, bind-Triple, then-Triple, weaken-Triple,
  act-Triple, act_cut-Triple, attempt-Triple, ignore-Triple, or_cleanup-Triple, fact-Triple,
}
use bigducks_live.Update.Manifest.{Manifest, Codec, verify_manifest, verify_asset}
use bigducks_live.Update.Manifest.Laws.{Authentic, verify_manifest_iff, verify_asset_iff}
use bigducks_live.Update.Apply.{
  ApplyRequest, staged, target, previous, temporary, pending, Files, create_temporary,
  write_temporary, replace, remove, launch, discard_temporary, both, copy_staged,
  replace_executable, Surroundings, waited, with_asset, with_paths, with_manifest, apply, decoded,
  is_incomplete, load_apply_request, apply_from_request,
}
use bigducks_live.Update.Apply.Rules.{read-Triple, pass-Triple, replace-Triple, discard-Triple}

module _ (codec : Codec) (public_key old : Text) where
  -- Exactly these bytes were signed for, by the program's key.
  abbrev pub Verified : Text → Type 0
  Verified bytes =
      (raw signature : Text) × (m : Manifest) × Authentic codec raw signature public_key m
      × (m.size ≡ pos (length bytes))
      × (equal_fold (codec.hex_encode (codec.digest bytes)) m.sha256 ≡ true)

  -- The old program is in its place, and was not left for another.
  abbrev pub Intact : Files → Type 0
  Intact x = (x.target_file ≡ some old) × (x.launched ≡ false)

  abbrev pub SetAside : Files → Type 0
  SetAside x = (x.target_file ≡ none) × (x.previous_file ≡ some old) × (x.launched ≡ false)

  abbrev pub Updated : Files → Type 0
  Updated x = (bytes : Text) × Verified bytes × (x.target_file ≡ some bytes)

  -- The program is in its place, or its backup is, or a verified one is in its place.
  abbrev pub Kept : Files → Type 0
  Kept x = Intact x ⊎ (SetAside x ⊎ Updated x)

  intact : (x : Files) → Intact x → Kept x × Kept x
  intact x h = (inl h, inl h)

  module _ (new : Text) (verified : Verified new) where
    abbrev Ready : Files → Type 0
    Ready x = Intact x × (x.staged_file ≡ some new)

    abbrev Filled : Files → Type 0
    Filled x = Intact x × (x.temporary_file ≡ some new)

    abbrev Between : Files → Type 0
    Between x = SetAside x × (x.temporary_file ≡ some new)

    abbrev InPlace : Files → Type 0
    InPlace x = x.target_file ≡ some new

    between : (x : Files) → Between x → Between x × Kept x
    between x h = (h, inr (inl h.0))

    updated : (x : Files) → InPlace x → Kept x
    updated x h = inr (inr (new, verified, h))

    both-Triple :
        (copied closed : Result (Unit {0}))
        → Triple (Caught (λ _. Filled) Intact copied) (both copied closed) (λ _. Filled) Intact Kept
    both-Triple (err e) closed = fail-Triple e (λ x h. h)
    both-Triple (ok _) (err e) = fail-Triple e (λ x h. h.0)
    both-Triple (ok _) (ok _) = pure-Triple tt (λ x h. h)

    caught_kept :
        (copied : Result (Unit {0})) (x : Files)
        → Caught (λ _. Filled) Intact copied x
        → Intact x × Kept x
    caught_kept (ok _) x h = (h.0, inl h.0)
    caught_kept (err e) x h = (h, inl h)

    copy-Triple :
        (bytes : Text)
        → bytes ≡ new
        → Triple Ready (write_temporary bytes) (λ _. Filled) Intact Kept
    unfolding write_temporary
    copy-Triple bytes e =
        act_cut-Triple _ _ (λ x h. rw e (h.0, refl)) (λ x h. (h.0, inl h.0, λ n. (h.0, inl h.0)))

    settle :
        (Q : Files → Type 0) (closed : Result (Unit {0})) (x : Files)
        → Caught (λ _. Q) Q closed x
        → Q x
    settle Q (ok _) x h = h
    settle Q (err e) x h = h

    copy_staged-Triple : Triple Ready copy_staged (λ _. Filled) Intact Kept
    unfolding copy_staged
    copy_staged-Triple =
        bind-Triple
          (read-Triple staged {Q = λ bytes x. Ready x × (bytes ≡ new)} (λ x bytes h e. (h, cc e))
            (λ x h. (h.0, inl h.0)))
          λ bytes.
            fact-Triple (λ x h. h.1)
              λ e.
                bind-Triple
                  (attempt-Triple {E' = Intact}
                    (weaken-Triple (λ x h. h.0) (λ _ _ h. h) (copy-Triple bytes e)))
                  λ copied.
                    bind-Triple
                      (attempt-Triple {E' = Intact} (
                        pass-Triple {P = Caught (λ _. Filled) Intact copied}
                          (λ x h. (h, (caught_kept copied x h).1))))
                      λ closed.
                        then-Triple
                          (weaken-Triple (settle (Caught (λ _. Filled) Intact copied) closed)
                            (λ _ _ h. h) (both-Triple copied closed))
                          (pass-Triple (λ x h. (h.0, inl h.0)))

    discard_temporary-Triple : Triple Intact discard_temporary (λ _. Kept) Kept Kept
    unfolding discard_temporary
    discard_temporary-Triple =
        then-Triple
          (ignore-Triple {E = Intact} {Q = λ _. Intact} (pass-Triple (λ x h. (h, inl h)))
            (λ _ x h. h) (λ x h. h))
          (discard-Triple temporary (λ x h. (inl h, inl h, inl h)))

    discard_from_intact : Triple Intact (ignore (remove temporary)) (λ _. Kept) Kept Kept
    discard_from_intact = discard-Triple temporary (λ x h. (inl h, inl h, inl h))

    restore-Triple :
        Triple SetAside
          (do ignore (replace previous target); ignore (remove temporary))
          (λ _. Kept)
          Kept
          Kept
    restore-Triple =
        then-Triple
          (ignore-Triple {E = Kept} {Q = λ _. Kept}
            (replace-Triple previous target (λ x h. (old, h.1, inl (refl, h.2)))
              (λ x h. (inr (inl h), inr (inl h))))
            (λ _ x h. h) (λ x h. h))
          (discard-Triple temporary (λ x h. (h, h, h)))

    replace_executable-Triple : Triple Ready replace_executable (λ _. InPlace) Kept Kept
    unfolding replace_executable create_temporary
    replace_executable-Triple =
        then-Triple {Q = Ready}
          (act-Triple _ _ (λ x h. h) (λ x h. (inl h.0, inl h.0, inl h.0, inl h.0)))
          (then-Triple (or_cleanup-Triple copy_staged-Triple discard_temporary-Triple) (
            then-Triple
              (or_cleanup-Triple {E = Intact} (pass-Triple {P = Filled} (λ x h. (h.0, inl h.0)))
                discard_from_intact)
              (then-Triple {Q = Between}
                (or_cleanup-Triple {E = Intact}
                  (replace-Triple target previous (λ x h. (old, h.0.0, ((refl, refl, h.0.1), h.1)))
                    (λ x h. (h.0, inl h.0)))
                  discard_from_intact)
                (then-Triple {Q = InPlace}
                  (or_cleanup-Triple {E = SetAside}
                    (replace-Triple temporary target (λ x h. (new, h.1, refl))
                      (λ x h. (h.0, inr (inl h.0))))
                    restore-Triple)
                  (discard-Triple previous (λ x h. (h, h, updated x h)))))))

    launch-Triple : Triple InPlace launch (λ _ x. InPlace x × (x.launched ≡ true)) Kept Kept
    unfolding launch
    launch-Triple =
        act-Triple _ _ (λ x h. (h, refl))
          (λ x h. (updated x h, updated x h, updated x h, updated x h))

    -- The new program is in its place, and runs.
    abbrev Running : Files → Type 0
    Running x = InPlace x × (x.launched ≡ true)

    waited-Triple : (r : Option Error) → Triple Ready (waited r) (λ _. Ready) Kept Kept
    waited-Triple none = pure-Triple tt (λ x h. h)
    waited-Triple (some e) = fail-Triple _ (λ x h. inl h.0)

  abbrev pub Succeeded : Unit {0} → Files → Type 0
  Succeeded _ x =
      (bytes : Text) × Verified bytes × (x.target_file ≡ some bytes) × (x.launched ≡ true)

  module _ (around : Surroundings) where
    abbrev Read : Text → Files → Type 0
    Read bytes x = Intact x × (x.staged_file ≡ some bytes)

    refuse : (e : Error) → Triple Intact (fail {A = Unit {0}} e) Succeeded Kept Kept
    refuse e = fail-Triple e (λ x h. inl h)

    with_asset-Triple :
        (request : ApplyRequest) (m : Manifest) (bytes : Text) (r : Option Error)
        → verify_asset codec m bytes ≡ r
        → Authentic codec request.manifest_raw request.signature public_key m
        → Triple (Read bytes) (with_asset codec around public_key request r) Succeeded Kept Kept
    with_asset-Triple request m bytes (some e) v a = fail-Triple e (λ x h. inl h.0)
    with_asset-Triple request m bytes none v a =
        let (_, size, digest) = (verify_asset_iff codec m bytes).0 v in
        let good : Verified bytes = (request.manifest_raw, request.signature, m, a, size, digest) in
        then-Triple (waited-Triple bytes good _) (
          then-Triple (replace_executable-Triple bytes good) (
            weaken-Triple (λ x h. h) (λ _ x h. (bytes, good, h.0, h.1)) (launch-Triple bytes good)))

    with_paths-Triple :
        (request : ApplyRequest) (m : Manifest) (from to : Result Text)
        → Authentic codec request.manifest_raw request.signature public_key m
        → Triple Intact (with_paths codec around public_key request m from to) Succeeded Kept Kept
    with_paths-Triple request m (err e) to a = refuse _
    with_paths-Triple request m (ok from) (err e) a = refuse _
    with_paths-Triple request m (ok from) (ok to) a =
        by_test (λ p. Triple Intact p Succeeded Kept Kept)
          (text_eq (around.clean from) (around.clean to)) (λ _. refuse _)
          λ _.
            bind-Triple (read-Triple staged {Q = Read} (λ x bytes h e. (h, e)) intact)
              λ bytes. with_asset-Triple request m bytes _ refl a

    with_manifest-Triple :
        (request : ApplyRequest) (r : Result Manifest)
        → verify_manifest codec request.manifest_raw request.signature public_key ≡ r
        → Triple Intact (with_manifest codec around public_key request r) Succeeded Kept Kept
    with_manifest-Triple request (err e) v = refuse e
    with_manifest-Triple request (ok m) v =
        by_test (λ p. Triple Intact p Succeeded Kept Kept)
          (not (is_empty request.version) && not (text_eq request.version m.version))
          (λ _. refuse _)
          λ _.
            with_paths-Triple request m _ _
              ((verify_manifest_iff codec request.manifest_raw request.signature public_key m).0 v)

    decoded-Triple :
        (r : Option ApplyRequest)
        → Triple Intact (decoded codec around public_key r) (λ _. Intact) Kept Kept
    decoded-Triple none = fail-Triple _ (λ x h. inl h)
    decoded-Triple (some request) =
        by_test (λ p. Triple Intact p (λ _. Intact) Kept Kept)
          (is_incomplete codec around public_key request) (λ _. fail-Triple _ (λ x h. inl h))
          (λ _. pure-Triple request (λ x h. h))

    apply_from_request-Triple :
        Triple Intact (apply_from_request codec around public_key) Succeeded Kept Kept
    unfolding apply_from_request load_apply_request apply
    apply_from_request-Triple =
        bind-Triple
          (bind-Triple (read-Triple pending {Q = λ _. Intact} (λ x bytes h e. h) intact)
            λ bytes. decoded-Triple _)
          λ request.
            then-Triple {Q = Succeeded tt} (with_manifest-Triple request _ refl)
              (discard-Triple pending (λ x h. (h, h, inr (inr (h.0, h.1, h.2)))))

-- What applying an update does to the program at the target's path, whatever request is pending,
-- whatever actions fail, and wherever the machine stops. If it succeeds, a program stands there and
-- was started whose bytes have the size and the digest of a manifest signed with the program's key.
-- Otherwise the old program stands there and nothing was started, or it stands in the backup beside
-- the empty place and nothing was started, or such a verified program stands there.
pub apply_from_request-Kept :
    (codec : Codec) (around : Surroundings) (public_key old : Text) (s : Machine Files)
    → s.state.target_file ≡ some old
    → s.state.launched ≡ false
    → Meets
        (Succeeded codec public_key old)
        (Kept codec public_key old)
        (Kept codec public_key old)
        (apply_from_request codec around public_key s)
apply_from_request-Kept codec around public_key old s there idle =
    (apply_from_request-Triple codec public_key old around).run s (there, idle)
