-- ===== src/Startup/Rules.antt =====
-- The actions of Startup in the logic of Effects.
use bigducks_live.Base.{◌≡◌, refl, ap, inl, inr, List, [], ◌∷◌, Option, none, some, Bool-cases}
use bigducks_live.Base.Text.{Text, text_eq, text_eq_refl}
use bigducks_live.Effects.{acted}
use bigducks_live.Effects.Logic.{Triple, Meets, act-Triple}
use bigducks_live.Startup.{
  ValueName, MetadataFile, Registry, value, with_value, get_string, set_string, deleted,
  delete_value, read_metadata, write_metadata, remove_metadata, find_metadata, without_metadata,
  metadata_at, with_metadata,
}

pub find_metadata-written :
    (path : Text) (stored : MetadataFile) (files : List (Text × MetadataFile))
    → find_metadata path ((path, stored) ∷ files) ≡ some stored
unfolding find_metadata
find_metadata-written path stored files = rw (text_eq_refl path) refl

pub without_metadata-written :
    (path : Text) (stored : MetadataFile) (files : List (Text × MetadataFile))
    → without_metadata path ((path, stored) ∷ files) ≡ without_metadata path files
unfolding without_metadata
without_metadata-written path stored files = rw (text_eq_refl path) refl

pub find_metadata-without :
    (path : Text) (files : List (Text × MetadataFile))
    → find_metadata path (without_metadata path files) ≡ none
unfolding find_metadata without_metadata
find_metadata-without path [] = refl
find_metadata-without path ((p, stored) ∷ files) = elim (Bool-cases (text_eq p path)) [
  | inl here ↦ rw here (find_metadata-without path files)
  | inr other ↦ rw other (rw other (find_metadata-without path files))
]

pub without_metadata-absent :
    (path : Text) (files : List (Text × MetadataFile))
    → find_metadata path files ≡ none
    → without_metadata path files ≡ files
unfolding find_metadata without_metadata
without_metadata-absent path [] h = refl
without_metadata-absent path ((p, stored) ∷ files) h = elim (Bool-cases (text_eq p path)) [
  | inl here ↦ cc (rw here at h)
  | inr other ↦ rw other (ap (◌∷◌ (p, stored)) (without_metadata-absent path files (rw other at h)))
]

module _ {P E C : Registry → Type 0} where
  pub get_string-Triple :
      (name : ValueName) {Q : Option Text → Registry → Type 0}
      → ((x : Registry) → P x → Q (value name x) x)
      → ((x : Registry) → P x → E x × C x)
      → Triple P (get_string name) Q E C
  unfolding get_string
  get_string-Triple name good cut = act-Triple _ _ good λ x h. let (e, c) = cut x h in (e, e, c, c)

  pub set_string-Triple :
      (name : ValueName) (v : Text) {Q : Registry → Type 0}
      → ((x : Registry) → P x → Q (with_value name (some v) x))
      → ((x : Registry) → P x → E x × C x)
      → Triple P (set_string name v) (λ _. Q) E C
  unfolding set_string
  set_string-Triple name v good cut =
      act-Triple _ _ good λ x h. let (e, c) = cut x h in (e, e, c, c)

  pub delete_value-Triple :
      (name : ValueName) {Q : Registry → Type 0}
      → ((x : Registry) → P x → Q (with_value name none x))
      → ((x : Registry) → P x → E x × C x)
      → Triple P (delete_value name) (λ _. Q) E C
  unfolding delete_value
  delete_value-Triple name {Q} good cut =
      act-Triple _ _ (λ x h. gone x (value name x) (good x h) (cut x h).0)
        λ x h. let (e, c) = cut x h in (e, e, c, c)
    where
      gone :
          (x : Registry) (v : Option Text)
          → Q (with_value name none x)
          → E x
          → Meets (λ _. Q) E C (acted (deleted name v x) [])
      gone x none q e = e
      gone x (some v) q e = q

  pub read_metadata-Triple :
      (path : Text) {Q : Option MetadataFile → Registry → Type 0}
      → ((x : Registry) → P x → Q (metadata_at path x) x)
      → ((x : Registry) → P x → E x × C x)
      → Triple P (read_metadata path) Q E C
  unfolding read_metadata
  read_metadata-Triple path good cut =
      act-Triple _ _ good λ x h. let (e, c) = cut x h in (e, e, c, c)

  pub write_metadata-Triple :
      (path : Text) (stored : MetadataFile) {Q : Registry → Type 0}
      → ((x : Registry) → P x → Q (with_metadata path stored x))
      → ((x : Registry) → P x → E x × C x)
      → Triple P (write_metadata path stored) (λ _. Q) E C
  unfolding write_metadata
  write_metadata-Triple path stored good cut =
      act-Triple _ _ good λ x h. let (e, c) = cut x h in (e, e, c, c)

  pub remove_metadata-Triple :
      (path : Text) {Q : Registry → Type 0}
      → ((x : Registry) → P x → Q (record x { metadata = without_metadata path x.metadata }))
      → ((x : Registry) → P x → E x × C x)
      → Triple P (remove_metadata path) (λ _. Q) E C
  unfolding remove_metadata
  remove_metadata-Triple path good cut =
      act-Triple _ _ good λ x h. let (e, c) = cut x h in (e, e, c, c)
