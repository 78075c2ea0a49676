-- ===== src/Injection/Disk/Rules.antt =====
-- The actions of Injection/Disk in the logic of Effects.
use bigducks_live.Base.{ℕ, ◌≡◌, take, List, [], Option, none, some}
use bigducks_live.Base.Text.{Text}
use bigducks_live.Effects.{acted}
use bigducks_live.Effects.Logic.{Triple, act-Triple, act_cut-Triple, Meets}
use bigducks_live.Injection.Disk.{
  Node, file, folder, Place, Disk, at_place, put, stat, renamed, rename, removed, remove,
  partly_removed, make_backups, remove_all, made, make_folder, set_entry, written, after_write,
  write_in, InjectionRecord, write_records, read_records, read_file, contents, read_backup,
  write_backup, find_backup,
}

module _ {P E C : Disk → Type 0} where
  pub stat-Triple :
      (p : Place) {Q : Option Node → Disk → Type 0}
      → ((x : Disk) → P x → Q (at_place p x) x)
      → ((x : Disk) → P x → E x × C x)
      → Triple P (stat p) Q E C
  unfolding stat
  stat-Triple p good cut = act-Triple _ _ good λ x h. let (e, c) = cut x h in (e, e, c, c)

  -- A rename to a free place.
  pub rename-Triple :
      (p q : Place) {Q : Disk → Type 0}
      → ((x : Disk)
          → P x
          → (n : Node) × (at_place p x ≡ some n)
            × (at_place q x ≡ none)
            × Q (put p none (put q (some n) x)))
      → ((x : Disk) → P x → E x × C x)
      → Triple P (rename p q) (λ _. Q) E C
  unfolding rename
  rename-Triple p q {Q} good cut =
      act-Triple _ _
        (λ x h.
          let (n, from, to, h') = good x h in moved n x (at_place p x) (at_place q x) from to h')
        λ x h. let (e, c) = cut x h in (e, e, c, c)
    where
      moved :
          (n : Node) (x : Disk) (a b : Option Node)
          → a ≡ some n
          → b ≡ none
          → Q (put p none (put q (some n) x))
          → Meets (λ _. Q) E C (acted (renamed p q a b x) [])
      moved n x none b e f h = cc
      moved n x (some m) (some t) e f h = cc
      moved n x (some m) none e f h = let same_node : n ≡ m = cc e in rw (← same_node) h

  -- A rename of a file to a folder's place fails.
  pub rename_blocked-Triple :
      (p q : Place) {Q : Disk → Type 0}
      → ((x : Disk)
          → P x
          → (s : Text) × (fs : List (Text × Text)) × (at_place p x ≡ some (file s))
            × (at_place q x ≡ some (folder fs)))
      → ((x : Disk) → P x → E x × C x)
      → Triple P (rename p q) (λ _. Q) E C
  unfolding rename
  rename_blocked-Triple p q {Q} blocked cut =
      act-Triple _ _
        (λ x h.
          let (s, fs, from, to) = blocked x h in
          stays s fs x (at_place p x) (at_place q x) from to (cut x h).0)
        λ x h. let (e, c) = cut x h in (e, e, c, c)
    where
      stays :
          (s : Text) (fs : List (Text × Text)) (x : Disk) (a b : Option Node)
          → a ≡ some (file s)
          → b ≡ some (folder fs)
          → E x
          → Meets (λ _. Q) E C (acted (renamed p q a b x) [])
      stays s fs x none b e f h = cc
      stays s fs x (some (folder gs)) b e f h = cc
      stays s fs x (some (file t)) none e f h = cc
      stays s fs x (some (file t)) (some (file u)) e f h = cc
      stays s fs x (some (file t)) (some (folder gs)) e f h = h

  pub remove-Triple :
      (p : Place) {Q : Disk → Type 0}
      → ((x : Disk) → P x → (n : Node) × (at_place p x ≡ some n) × Q (put p none x))
      → ((x : Disk) → P x → E x × C x)
      → Triple P (remove p) (λ _. Q) E C
  unfolding remove
  remove-Triple p {Q} good cut =
      act-Triple _ _ (λ x h. let (n, there, h') = good x h in gone n x (at_place p x) there h')
        λ x h. let (e, c) = cut x h in (e, e, c, c)
    where
      gone :
          (n : Node) (x : Disk) (a : Option Node)
          → a ≡ some n
          → Q (put p none x)
          → Meets (λ _. Q) E C (acted (removed p a x) [])
      gone n x none e h = cc
      gone n x (some m) e h = h

  pub remove_all-Triple :
      (p : Place) {Q : Disk → Type 0}
      → ((x : Disk) → P x → Q (put p none x))
      → ((x : Disk)
          → P x
          → E x
            × C x
            × ((n : ℕ)
                → E (put p (partly_removed n (at_place p x)) x)
                  × C (put p (partly_removed n (at_place p x)) x)))
      → Triple P (remove_all p) (λ _. Q) E C
  unfolding remove_all
  remove_all-Triple p good cut = act_cut-Triple _ _ good cut

  pub make_folder-Triple :
      (p : Place) {Q : Disk → Type 0}
      → ((x : Disk) → P x → (at_place p x ≡ none) × Q (put p (some (folder [])) x))
      → ((x : Disk) → P x → E x × C x)
      → Triple P (make_folder p) (λ _. Q) E C
  unfolding make_folder
  make_folder-Triple p {Q} good cut =
      act-Triple _ _ (λ x h. let (free, h') = good x h in created x (at_place p x) free h')
        λ x h. let (e, c) = cut x h in (e, e, c, c)
    where
      created :
          (x : Disk) (a : Option Node)
          → a ≡ none
          → Q (put p (some (folder [])) x)
          → Meets (λ _. Q) E C (acted (made p a x) [])
      created x none e h = h
      created x (some m) e h = cc

  -- A write may leave a part of the text.
  pub write_in-Triple :
      (p : Place) (name bytes : Text) {Q : Disk → Type 0}
      → ((x : Disk)
          → P x
          → (fs : List (Text × Text)) × (at_place p x ≡ some (folder fs))
            × Q (put p (some (folder (set_entry name bytes fs))) x)
            × E x
            × C x
            × ((n : ℕ)
                → E (put p (some (folder (set_entry name (take n bytes) fs))) x)
                  × C (put p (some (folder (set_entry name (take n bytes) fs))) x)))
      → Triple P (write_in p name bytes) (λ _. Q) E C
  unfolding write_in
  write_in-Triple p name bytes {Q} h =
      act_cut-Triple _ _
        (λ x hx. let (fs, there, q, _, _, _) = h x hx in stored fs x (at_place p x) there q)
        λ x hx.
          let (fs, there, _, e, c, torn) = h x hx in
          (
            e,
            c,
            λ n. (
              half n E fs x (at_place p x) there (torn n).0,
              half n C fs x (at_place p x) there (torn n).1,
            ),
          )
    where
      stored :
          (fs : List (Text × Text)) (x : Disk) (a : Option Node)
          → a ≡ some (folder fs)
          → Q (put p (some (folder (set_entry name bytes fs))) x)
          → Meets (λ _. Q) E C (acted (written p name bytes a x) [])
      stored fs x none e h = cc
      stored fs x (some (file s)) e h = cc
      stored fs x (some (folder gs)) e h = let same_files : fs ≡ gs = cc e in rw (← same_files) h

      half :
          (n : ℕ) (R : Disk → Type 0) (fs : List (Text × Text)) (x : Disk) (a : Option Node)
          → a ≡ some (folder fs)
          → R (put p (some (folder (set_entry name (take n bytes) fs))) x)
          → R (after_write (written p name (take n bytes) a x))
      half n R fs x none e h = cc
      half n R fs x (some (file s)) e h = cc
      half n R fs x (some (folder gs)) e h = let same_files : fs ≡ gs = cc e in rw (← same_files) h

  pub write_records-Triple :
      (records : List InjectionRecord) {Q : Disk → Type 0}
      → ((x : Disk) → P x → Q (record x { metadata = some records }))
      → ((x : Disk) → P x → E x × C x)
      → Triple P (write_records records) (λ _. Q) E C
  unfolding write_records
  write_records-Triple records good cut =
      act-Triple _ _ good λ x h. let (e, c) = cut x h in (e, e, c, c)

  pub read_file-Triple :
      (p : Place) {Q : Text → Disk → Type 0}
      → ((x : Disk) → P x → (s : Text) × (at_place p x ≡ some (file s)) × Q s x)
      → ((x : Disk) → P x → E x × C x)
      → Triple P (read_file p) Q E C
  unfolding read_file
  read_file-Triple p {Q} good cut =
      act-Triple _ _ (λ x h. let (s, there, q) = good x h in found s x (at_place p x) there q)
        λ x h. let (e, c) = cut x h in (e, e, c, c)
    where
      found :
          (s : Text) (x : Disk) (a : Option Node)
          → a ≡ some (file s)
          → Q s x
          → Meets Q E C (acted (contents a, x) [])
      found s x none e h = cc
      found s x (some (folder fs)) e h = cc
      found s x (some (file t)) e h = let same_text : s ≡ t = cc e in rw (← same_text) h

  pub read_backup-Triple :
      (path : Text) {Q : Option Text → Disk → Type 0}
      → ((x : Disk) → P x → Q (find_backup path x) x)
      → ((x : Disk) → P x → E x × C x)
      → Triple P (read_backup path) Q E C
  unfolding read_backup
  read_backup-Triple path good cut = act-Triple _ _ good λ x h. let (e, c) = cut x h in (e, e, c, c)

  pub write_backup-Triple :
      (path bytes : Text) {Q : Disk → Type 0}
      → ((x : Disk) → P x → Q (record x { backups = set_entry path bytes x.backups }))
      → ((x : Disk) → P x → E x × C x)
      → Triple P (write_backup path bytes) (λ _. Q) E C
  unfolding write_backup
  write_backup-Triple path bytes good cut =
      act-Triple _ _ good λ x h. let (e, c) = cut x h in (e, e, c, c)

  pub make_backups-Triple :
      {Q : Disk → Type 0}
      → ((x : Disk) → P x → Q x)
      → ((x : Disk) → P x → E x × C x)
      → Triple P make_backups (λ _. Q) E C
  unfolding make_backups
  make_backups-Triple good cut = act-Triple _ _ good λ x h. let (e, c) = cut x h in (e, e, c, c)

  pub read_records-Triple :
      {Q : Option (List InjectionRecord) → Disk → Type 0}
      → ((x : Disk) → P x → Q x.metadata x)
      → ((x : Disk) → P x → E x × C x)
      → Triple P read_records Q E C
  unfolding read_records
  read_records-Triple good cut = act-Triple _ _ good λ x h. let (e, c) = cut x h in (e, e, c, c)
