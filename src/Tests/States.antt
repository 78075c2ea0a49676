-- ===== src/Tests/States.antt =====
-- Inputs for SaveState and LoadState of internal/proxy/pool.go.
use bigducks_live.Base.{◌≡◌, refl, false, [], ◌∷◌, none, some}
use bigducks_live.Base.Text.{codes}
use bigducks_live.Effects.{Machine, works, stops}
use bigducks_live.Effects.Logic.{Meets}
use bigducks_live.Proxy.State.{StateCodec, StateFiles, state_of, save_state}
use bigducks_live.Proxy.State.Kept.{LoadsSaved, save_state-kept}

-- JSON of one state only.
abbrev state_codec : StateCodec
state_codec = record {
  marshal = λ state. some (codes "s");
  unmarshal = λ bytes. some (state_of [] 5_000_000_000);
}

-- The machine stops before the new file takes the old one's place.
abbrev cut_short : Machine StateFiles
cut_short = record {
  state = record { state_file = some (codes "old"); temporary_file = none };
  faults = works ∷ works ∷ stops (some 0) ∷ [];
}

save_state-kept_example :
    Meets
      (λ _. LoadsSaved state_codec [] 5_000_000_000 6_000_000_000 2_000_000_000)
      (λ x. x.state_file ≡ some (codes "old"))
      (λ x. x.state_file ≡ some (codes "old"))
      (save_state state_codec false [] 5_000_000_000 cut_short)
save_state-kept_example =
    save_state-kept state_codec [] 5_000_000_000 false (codes "s") 6_000_000_000 2_000_000_000
      cut_short refl refl
