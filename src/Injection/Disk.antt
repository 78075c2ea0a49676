-- ===== src/Injection/Disk.antt =====
-- The files of one Discord installation that internal/injection/injection_windows.go works on, and
-- the actions of package os on them. The places in the resources folder are named after the last
-- part of their paths; a folder there holds files only. Backups are known by their paths.
-- A write that is cut short leaves a part of the text from its beginning on, a RemoveAll some of the
-- folder's files. A file that is replaced over a temporary one (writeAtomic) is either the old or the new one.
pub mod Rules
use bigducks_live.Base.{
  ℕ, ◌/◌, ◌%◌, ◌==◌, take, Bool, true, false, List, [], ◌∷◌, Option, none, some, if◌then◌else◌,
}
use bigducks_live.Base.Text.{Text, text_eq}
use bigducks_live.Errors.{Error, failure, Result, ok, err}
use bigducks_live.Effects.{M, act, act_cut}

-- A folder is a list of its files.
pub data Node : Type 0 where
  file : Text → Node
  folder : List (Text × Text) → Node

-- injectionRecord; its resources and backup stand for the paths.
pub record InjectionRecord : Type 0 where
  pub resources : Text
  pub backup : Text
  pub sha256 : Text

-- `app.asar`, `app.asar.discordstream-installing`, `-partial`, `-restoring`, `-stub`.
pub data Place : Type 0 where
  app installing partial restoring removed_stub : Place

pub record Disk : Type 0 where
  pub app_asar : Option Node
  pub installing_asar : Option Node
  pub partial_asar : Option Node
  pub restoring_asar : Option Node
  pub stub_asar : Option Node
  pub original_asar : Bool
  pub backups : List (Text × Text)
  pub bridge : Option Text
  pub metadata : Option (List InjectionRecord)

abbrev pub at_place : Place → Disk → Option Node
at_place app d = d.app_asar
at_place installing d = d.installing_asar
at_place partial d = d.partial_asar
at_place restoring d = d.restoring_asar
at_place removed_stub d = d.stub_asar

abbrev pub put : Place → Option Node → Disk → Disk
put app n d = record d { app_asar = n }
put installing n d = record d { installing_asar = n }
put partial n d = record d { partial_asar = n }
put restoring n d = record d { restoring_asar = n }
put removed_stub n d = record d { stub_asar = n }

abbrev pub same : Disk → Disk
same d = d

-- os.Stat: what stands there, or none if it does not exist.
unfoldable pub stat : Place → M Disk (Option Node)
stat p = act (λ d. (ok (at_place p d), d)) same

-- A rename replaces a file by a file, and nothing else.
abbrev pub renamed : Place → Place → Option Node → Option Node → Disk → Result (Unit {0}) × Disk
renamed p q none target d = (err (failure "not exist"), d)
renamed p q (some n) none d = (ok tt, put p none (put q (some n) d))
renamed p q (some (file s)) (some (file t)) d = (ok tt, put p none (put q (some (file s)) d))
renamed p q (some (file s)) (some (folder fs)) d = (err (failure "access denied"), d)
renamed p q (some (folder fs)) (some n) d = (err (failure "access denied"), d)

unfoldable pub rename : Place → Place → M Disk (Unit {0})
rename p q = act (λ d. renamed p q (at_place p d) (at_place q d) d) same

abbrev pub removed : Place → Option Node → Disk → Result (Unit {0}) × Disk
removed p none d = (err (failure "not exist"), d)
removed p (some n) d = (ok tt, put p none d)

unfoldable pub remove : Place → M Disk (Unit {0})
remove p = act (λ d. removed p (at_place p d) d) same

-- Some of the files, by the bits of a number.
unfoldable pub remaining : ℕ → List (Text × Text) → List (Text × Text)
remaining n [] = []
remaining n (f ∷ fs) = let rest = remaining (n / 2) fs in if n % 2 == 0 then rest else f ∷ rest

abbrev pub partly_removed : ℕ → Option Node → Option Node
partly_removed n none = none
partly_removed n (some (file s)) = some (file s)
partly_removed n (some (folder fs)) = some (folder (remaining n fs))

unfoldable pub remove_all : Place → M Disk (Unit {0})
remove_all p =
    act_cut (λ d. (ok tt, put p none d)) (λ n d. put p (partly_removed n (at_place p d)) d)

abbrev pub made : Place → Option Node → Disk → Result (Unit {0}) × Disk
made p none d = (ok tt, put p (some (folder [])) d)
made p (some n) d = (err (failure "exists"), d)

unfoldable pub make_folder : Place → M Disk (Unit {0})
make_folder p = act (λ d. made p (at_place p d) d) same

abbrev pub set_entry : Text → Text → List (Text × Text) → List (Text × Text)
set_entry name bytes [] = (name, bytes) ∷ []
set_entry name bytes ((n, b) ∷ fs) =
    let rest = set_entry name bytes fs in
    if text_eq n name then (name, bytes) ∷ fs else (n, b) ∷ rest

abbrev pub get_entry : Text → List (Text × Text) → Option Text
get_entry name [] = none
get_entry name ((n, b) ∷ fs) =
    let rest = get_entry name fs in if text_eq n name then some b else rest

abbrev pub written : Place → Text → Text → Option Node → Disk → Result (Unit {0}) × Disk
written p name bytes none d = (err (failure "not exist"), d)
written p name bytes (some (file s)) d = (err (failure "not a folder"), d)
written p name bytes (some (folder fs)) d =
    (ok tt, put p (some (folder (set_entry name bytes fs))) d)

abbrev pub after_write : {A : Type 0} → A × Disk → Disk
after_write (r, d) = d

-- os.WriteFile of a file in the folder at a place.
unfoldable pub write_in : Place → Text → Text → M Disk (Unit {0})
write_in p name bytes =
    act_cut (λ d. written p name bytes (at_place p d) d)
      (λ n d. after_write (written p name (take n bytes) (at_place p d) d))

-- writeAtomic of a file in the folder at a place.
unfoldable pub replace_in : Place → Text → Text → M Disk (Unit {0})
replace_in p name bytes = act (λ d. written p name bytes (at_place p d) d) same

-- os.WriteFile of a file at a place.
unfoldable pub write_file : Place → Text → M Disk (Unit {0})
write_file p bytes =
    act_cut (λ d. (ok tt, put p (some (file bytes)) d)) (λ n. put p (some (file (take n bytes))))

abbrev pub contents : Option Node → Result Text
contents none = err (failure "not exist")
contents (some (file s)) = ok s
contents (some (folder fs)) = err (failure "is a folder")

unfoldable pub read_file : Place → M Disk Text
read_file p = act (λ d. (contents (at_place p d), d)) same

abbrev pub present : Option Text → Result Text
present none = err (failure "not exist")
present (some s) = ok s

abbrev pub contents_in : Text → Option Node → Result Text
contents_in name none = err (failure "not exist")
contents_in name (some (file s)) = err (failure "not exist")
contents_in name (some (folder fs)) = present (get_entry name fs)

unfoldable pub read_in : Place → Text → M Disk Text
read_in p name = act (λ d. (contents_in name (at_place p d), d)) same

abbrev pub find_backup : Text → Disk → Option Text
find_backup path d = get_entry path d.backups

-- os.ReadFile of a backup, or none if it does not exist.
unfoldable pub read_backup : Text → M Disk (Option Text)
read_backup path = act (λ d. (ok (find_backup path d), d)) same

unfoldable pub write_backup : Text → Text → M Disk (Unit {0})
write_backup path bytes =
    act (λ d. (ok tt, record d { backups = set_entry path bytes d.backups })) same

-- os.MkdirAll of the folder of backups, which is not a part of the disk's state.
unfoldable pub make_backups : M Disk (Unit {0})
make_backups = act (λ d. (ok tt, d)) same

unfoldable pub read_records : M Disk (Option (List InjectionRecord))
read_records = act (λ d. (ok d.metadata, d)) same

unfoldable pub write_records : List InjectionRecord → M Disk (Unit {0})
write_records records = act (λ d. (ok tt, record d { metadata = some records })) same

unfoldable pub write_bridge : Text → M Disk (Unit {0})
write_bridge script = act (λ d. (ok tt, record d { bridge = some script })) same

unfoldable pub has_original : M Disk Bool
has_original = act (λ d. (ok d.original_asar, d)) same
