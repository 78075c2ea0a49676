-- ===== src/Tests/Integration.antt =====
-- Inputs for internal/injection.
use bigducks_live.Base.{
  ◌≡◌, ◌⊎◌, ◌≤◌, inl, inr, refl, true, false, [], ◌∷◌, ◌++◌, ◌+◌, length, none, some,
}
use bigducks_live.Base.Int.{pos}
use bigducks_live.Base.Text.{Text, codes, text_eq}
use bigducks_live.Errors.{failure}
use bigducks_live.Effects.{Machine, works, fails, stops, done, failed}
use bigducks_live.Effects.Logic.{Meets}
use bigducks_live.Injection.Disk.{file, Disk}
use bigducks_live.Injection.Stub.{Paths}
use bigducks_live.Injection.Asar.{Libraries, asar_file, parse_asar_header, entry_bytes, uint32_at}
use bigducks_live.Injection.Asar.Bounds.{Inside, asar_file-Inside}
use bigducks_live.Injection.Install.{install, installed_result, recover_interrupted_install}
use bigducks_live.Injection.Install.Crash.{Integrated, Safe}
use bigducks_live.Injection.Install.Recovery.{Settled, recover_interrupted_install-Settled}
use bigducks_live.Injection.Install.Ending.{Torn, recover_interrupted_install_ends}
use bigducks_live.Injection.Install.Whole.{Kept, install-Kept, install_succeeds}

abbrev paths : Paths
paths = record {
  bridge_path = codes "C:\\bridge.js";
  backup_path = λ d. codes "C:\\backups\\" ++ (d ++ codes ".asar");
  quote = λ s. s;
  unquote = some;
  is_absolute = λ _. true;
  clean = λ s. s;
  relative = some;
  base = λ s. s;
  digest = λ _. codes "c0ffee";
}

abbrev loader : Text
loader = codes "loader"

abbrev backup_path : Text
backup_path = codes "C:\\backups\\c0ffee.asar"

abbrev fresh_disk : Disk
fresh_disk = record {
  app_asar = some (file loader);
  installing_asar = none;
  partial_asar = none;
  restoring_asar = none;
  stub_asar = none;
  original_asar = false;
  backups = [];
  bridge = none;
  metadata = none;
}

-- The eighth action, the creation of the stub's folder, fails, and then the rollback is stopped.
abbrev failing_machine : Machine Disk
failing_machine = record {
  state = fresh_disk;
  faults =
      works
      ∷ works
      ∷ works
      ∷ works
      ∷ works
      ∷ works
      ∷ fails (failure "access denied") none
      ∷ stops none
      ∷ [];
}

install-Kept_example :
    Meets
      (λ _. Integrated loader backup_path paths)
      (Kept loader paths)
      (Kept loader paths)
      (install paths (codes "resources") failing_machine)
install-Kept_example = install-Kept loader paths (codes "resources") failing_machine (refl, refl)

install_succeeds_example :
    let r = install paths (codes "resources") (record { state = fresh_disk; faults = [] }) in
    (r.0 ≡ done installed_result) × Integrated loader backup_path paths r.1.state
install_succeeds_example =
    install_succeeds loader paths (codes "resources") fresh_disk (refl, refl) (inl refl)

-- The machine stopped between the two renames.
abbrev interrupted_disk : Disk
interrupted_disk = record fresh_disk {
  app_asar = none;
  installing_asar = some (file loader);
  backups = (backup_path, loader) ∷ [];
}

abbrev stopping_machine : Machine Disk
stopping_machine = record { state = interrupted_disk; faults = works ∷ works ∷ stops none ∷ [] }

interrupted-Safe : Safe loader backup_path paths interrupted_disk
unfolding text_eq
interrupted-Safe = inr (inl (refl, refl, refl))

recover_interrupted_install-Settled_example :
    Meets
      (λ _. Settled loader backup_path paths)
      (Safe loader backup_path paths)
      (Safe loader backup_path paths)
      (recover_interrupted_install stopping_machine)
recover_interrupted_install-Settled_example =
    recover_interrupted_install-Settled loader backup_path paths stopping_machine interrupted-Safe

recover_interrupted_install_ends_example :
    let r = recover_interrupted_install (record { state = interrupted_disk; faults = [] }) in
    ((r.0 ≡ done tt) × Settled loader backup_path paths r.1.state)
    ⊎ (Torn loader backup_path paths interrupted_disk
        × (r.0
            ≡ failed (failure "an ambiguous BIG DUCKS integration transaction needs manual repair"))
        × (r.1.state ≡ interrupted_disk))
recover_interrupted_install_ends_example =
    recover_interrupted_install_ends loader backup_path paths interrupted_disk interrupted-Safe refl

abbrev libraries : Libraries
libraries = record {
  parse_header = λ _. some (record {
    files = (codes "index.js", record { size = pos 2; offset = []; is_folder = false }) ∷ [];
  });
  parse_package = λ _. none;
  parse_string = some;
  require_only = some;
  is_absolute = λ _. true;
  clean = λ s. s;
  parse_int = λ _. some (pos 1);
}

-- A header of two bytes, and three bytes behind it.
abbrev archive : Text
archive = 4 ∷ 0 ∷ 0 ∷ 0 ∷ 10 ∷ 0 ∷ 0 ∷ 0 ∷ 0 ∷ 0 ∷ 0 ∷ 0 ∷ 2 ∷ 0 ∷ 0 ∷ 0 ∷ codes "{}abc"

asar_file-Inside_example :
    Inside archive (codes "bc") (8 + uint32_at 4 archive)
    × (16 + uint32_at 12 archive ≤ 8 + uint32_at 4 archive)
    × (8 + uint32_at 4 archive ≤ length archive)
unfolding asar_file parse_asar_header entry_bytes text_eq
asar_file-Inside_example = asar_file-Inside libraries archive (codes "index.js") (codes "bc") refl
