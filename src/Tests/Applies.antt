-- ===== src/Tests/Applies.antt =====
-- Inputs for internal/update/apply.go.
use bigducks_live.Base.{◌≡◌, refl, false, [], ◌∷◌, none, some}
use bigducks_live.Base.Int.{pos, negsuc}
use bigducks_live.Base.Text.{Text, codes}
use bigducks_live.Errors.{ok}
use bigducks_live.Effects.{Machine, works, stops}
use bigducks_live.Effects.Logic.{Meets}
use bigducks_live.Update.Apply.{
  ApplyRequest, Files, Surroundings, apply_from_request, unique_positive_pids,
}
use bigducks_live.Update.Apply.Safe.{Succeeded, Kept, apply_from_request-Kept}
use bigducks_live.Tests.Updates.{toy_codec}

abbrev update_request : ApplyRequest
update_request = record {
  version = codes "1.10.0";
  target_path = codes "t";
  staged_path = codes "s";
  manifest_raw = 1 ∷ [];
  signature = codes "s";
  wait_pids = pos 4 ∷ negsuc 0 ∷ pos 4 ∷ pos 0 ∷ pos 7 ∷ [];
}

abbrev around : Surroundings
around = record {
  abs = λ path. ok path;
  clean = λ path. path;
  wait = λ pids. none;
  decode_request = λ bytes. some update_request;
}

abbrev old_program : Text
old_program = codes "old"

abbrev new_program : Text
new_program = 7 ∷ 8 ∷ 9 ∷ []

abbrev files : Files
files = record {
  staged_file = some new_program;
  target_file = some old_program;
  previous_file = none;
  temporary_file = none;
  pending_file = some (codes "{}");
  launched = false;
}

-- The machine stops at the tenth action, the installation of the new program.
abbrev interrupted : Machine Files
interrupted = record {
  state = files;
  faults = works ∷ works ∷ works ∷ works ∷ works ∷ works ∷ works ∷ works ∷ works ∷ stops none ∷ [];
}

apply_from_request-Kept_example :
    Meets
      (Succeeded toy_codec (codes "k") old_program)
      (Kept toy_codec (codes "k") old_program)
      (Kept toy_codec (codes "k") old_program)
      (apply_from_request toy_codec around (codes "k") interrupted)
apply_from_request-Kept_example =
    apply_from_request-Kept toy_codec around (codes "k") old_program interrupted refl refl

pids_once : unique_positive_pids update_request.wait_pids ≡ 4 ∷ 7 ∷ []
unfolding unique_positive_pids
pids_once = refl
