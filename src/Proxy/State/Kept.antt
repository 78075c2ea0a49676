-- ===== src/Proxy/State/Kept.antt =====
-- What SaveState of internal/proxy/pool.go leaves for LoadState.
use bigducks_live.Base.{
  ℕ, ◌/◌, ◌≡◌, refl, some, none, Bool, true, false, List, [], Option, by_test, if◌then◌else◌,
}
use bigducks_live.Base.Text.{Text}
use bigducks_live.Effects.{M, act, Machine, done, acted, pure}
use bigducks_live.Effects.Logic.{
  Triple, Meets, fail-Triple, then-Triple, act-Triple, act_cut-Triple, ignore-Triple,
  or_cleanup-Triple,
}
use bigducks_live.Model.{VerifiedEndpoint}
use bigducks_live.Proxy.State.{
  StateCodec, StateFiles, second, make_folder, write_temporary, replaced, replace_state,
  remove_temporary, read_state, state_of, write_state, is_stale, save_state, load_state,
}

abbrev pub quiet : StateFiles → Machine StateFiles
quiet x = record { state = x; faults = [] }

module _ (codec : StateCodec) (entries : List VerifiedEndpoint) (saved : ℕ) where
  -- A later load gives the entries while they are fresh, and none after that.
  abbrev pub LoadsSaved : ℕ → ℕ → StateFiles → Type 0
  LoadsSaved now ttl x =
      (load_state codec now ttl (quiet x)).0
      ≡ done (if is_stale (saved / second) now ttl then [] else entries)

  module _ (old : Option Text) (bytes : Text) (now ttl : ℕ)
      (there : codec.unmarshal bytes ≡ some (state_of entries saved)) where
    abbrev Old : StateFiles → Type 0
    Old x = x.state_file ≡ old

    loads :
        (b : Bool) (x : StateFiles)
        → ((if b then pure {S = StateFiles} [] else pure entries) (quiet x)).0
          ≡ done (if b then [] else entries)
    loads true x = refl
    loads false x = refl

    loads_saved :
        (x : StateFiles)
        → LoadsSaved now ttl (record x { state_file = some bytes; temporary_file = none })
    unfolding load_state read_state act
    loads_saved x = rw there (loads (is_stale (saved / second) now ttl) _)

    Written : StateFiles → Type 0
    Written x = (x.state_file ≡ old) × (x.temporary_file ≡ some bytes)

    replaced-Meets :
        (x : StateFiles) (t : Option Text)
        → t ≡ some bytes
        → Meets (λ _. LoadsSaved now ttl) Old Old (acted (replaced t x) [])
    replaced-Meets x none e = cc
    replaced-Meets x (some b) e = let same_bytes : b ≡ bytes = cc e in rw same_bytes (loads_saved x)

    write_state-Triple :
        (m : Option Text)
        → m ≡ some bytes
        → Triple Old (write_state m) (λ _. LoadsSaved now ttl) Old Old
    unfolding write_temporary replace_state remove_temporary Written
    write_state-Triple none e = absurd (cc)
    write_state-Triple (some b) e =
        then-Triple {Q = Written} (act_cut-Triple _ _ (λ x h. (h, e)) (λ x h. (h, h, λ n. (h, h))))
          (or_cleanup-Triple {E = Old}
            (act-Triple _ _ (λ x h. replaced-Meets x x.temporary_file h.1)
              (λ x h. (h.0, h.0, h.0, h.0)))
            (ignore-Triple {E = Old} {Q = λ _. Old}
              (act-Triple _ _ (λ x h. h) (λ x h. (h, h, h, h))) (λ _ x h. h) (λ x h. h)))

    save_state-Triple :
        (path_is_empty : Bool)
        → codec.marshal (state_of entries saved) ≡ some bytes
        → Triple Old
            (save_state codec path_is_empty entries saved)
            (λ _. LoadsSaved now ttl)
            Old
            Old
    unfolding save_state make_folder
    save_state-Triple path_is_empty encodes =
        by_test (λ (m : M StateFiles (Unit {0})). Triple Old m (λ _. LoadsSaved now ttl) Old Old)
          path_is_empty (λ _. fail-Triple _ (λ x h. h))
          λ _.
            then-Triple {Q = Old} (act-Triple _ _ (λ x h. h) (λ x h. (h, h, h, h)))
              (write_state-Triple _ encodes)

-- For entries whose state JSON carries there and back: whatever actions fail, and wherever the
-- machine stops, SaveState either succeeds, and then a LoadState at any time gives these entries, or
-- none if they are stale by then (older than its limit, or the limit or the second of the saving is
-- not positive); or the state's file is what it was.
pub save_state-kept :
    (codec : StateCodec) (entries : List VerifiedEndpoint) (saved : ℕ) (path_is_empty : Bool)
    (bytes : Text) (now ttl : ℕ) (s : Machine StateFiles)
    → codec.marshal (state_of entries saved) ≡ some bytes
    → codec.unmarshal bytes ≡ some (state_of entries saved)
    → Meets
        (λ _. LoadsSaved codec entries saved now ttl)
        (λ x. x.state_file ≡ s.state.state_file)
        (λ x. x.state_file ≡ s.state.state_file)
        (save_state codec path_is_empty entries saved s)
save_state-kept codec entries saved path_is_empty bytes now ttl s encodes decodes =
    (save_state-Triple codec entries saved s.state.state_file bytes now ttl decodes path_is_empty
        encodes).run
      s refl
