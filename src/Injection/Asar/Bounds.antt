-- ===== src/Injection/Asar/Bounds.antt =====
-- What internal/injection/injection_windows.go reads of an archive lies in it.
use bigducks_live.Base.{
  ℕ, ◌+◌, ◌-◌, ◌≤◌, ◌==◌, ◌≡◌, false, ◌||◌, ltb, subst, Bool-cases, Option-cases, sym, ap, not, inl,
  inr, Option, none, some, length, drop, length-take, length-drop, arith,
}
use bigducks_live.Base.Text.{Text}
use bigducks_live.Injection.Asar.{
  AsarEntry, AsarHeader, Libraries, slice, cut, find_entry, with_offset, uint32_at, bad_lengths,
  parse_asar_header, entry_bytes, asar_file,
}

-- The bytes stand in the archive behind its header.
abbrev pub Inside : Text → Text → ℕ → Type 0
Inside bytes part content =
    (start : ℕ) × (content ≤ start)
    × (start + length part ≤ length bytes)
    × (part ≡ slice start (start + length part) bytes)

cut-Inside :
    (content : ℕ) (offset size : Option ℕ) (bytes part : Text)
    → cut content offset size bytes ≡ some part
    → Inside bytes part content
cut-Inside content (some offset) (some size) bytes part h =
    elim (Bool-cases (ltb (length bytes) (content + offset + size))) [
      | inl out ↦ cc (rw out at h)
      | inr fits ↦
          let start = content + offset in
          let e : slice start (start + size) bytes ≡ part = cc (rw fits at h) in
          let room : start + size ≤ length bytes = ground arith in
          let l : length part ≡ size = omega (
            arith,
            ap length e,
            length-take (start + size - start) (drop start bytes),
            length-drop start bytes,
          ) in
          (start, omega arith, omega arith, rw l (sym e))
    ]
cut-Inside content (some offset) none bytes part h = cc
cut-Inside content none size bytes part h = cc

entry_bytes-Inside :
    (lib : Libraries) (bytes part : Text) (content : ℕ) (entry : Option AsarEntry)
    → entry_bytes lib bytes content entry ≡ some part
    → Inside bytes part content
unfolding entry_bytes
entry_bytes-Inside lib bytes part content none h = cc
entry_bytes-Inside lib bytes part content (some entry) h = elim (Bool-cases entry.is_folder) [
  | inl is_folder ↦ cc (rw is_folder at h)
  | inr is_file ↦ cut-Inside content _ _ bytes part (rw is_file at h)
]

header_room :
    (lib : Libraries) (bytes : Text) (header : AsarHeader) (content : ℕ)
    → parse_asar_header lib bytes ≡ some (header, content)
    → (content ≡ 8 + uint32_at 4 bytes)
      × (16 + uint32_at 12 bytes ≤ content)
      × (content ≤ length bytes)
unfolding parse_asar_header
header_room lib bytes header content h =
    elim (Bool-cases (ltb (length bytes) 16 || not (uint32_at 0 bytes == 4))) [
      | inl short ↦ cc (rw short at h)
      | inr long ↦
          let h1 = rw long at h in
          let header_length = uint32_at 12 bytes in
          let start = 8 + uint32_at 4 bytes in
          elim (Bool-cases (bad_lengths (length bytes) header_length start)) [
            | inl bad ↦ cc (rw bad at h1)
            | inr good ↦
                room (lib.parse_header (slice 16 (16 + header_length) bytes)) (rw good at h1)
                  (bounds (length bytes) header_length start good)
          ]
    ]
  where
    room :
        (parsed : Option AsarHeader)
        → with_offset (8 + uint32_at 4 bytes) parsed ≡ some (header, content)
        → (16 + uint32_at 12 bytes ≤ 8 + uint32_at 4 bytes) × (8 + uint32_at 4 bytes ≤ length bytes)
        → (content ≡ 8 + uint32_at 4 bytes)
          × (16 + uint32_at 12 bytes ≤ content)
          × (content ≤ length bytes)
    room none e b = cc
    room (some parsed) e b =
        let same : 8 + uint32_at 4 bytes ≡ content = cc e in (sym same, omega arith, omega arith)

    bounds :
        (n header_length start : ℕ)
        → bad_lengths n header_length start ≡ false
        → (16 + header_length ≤ start) × (start ≤ n)
    bounds n header_length start h = ground arith

-- A file that is read from an archive is a part of its bytes, whatever sizes and offsets the header
-- names. It begins at the content's offset that the archive states at its byte 4, or later, and ends
-- within the archive; and that offset is behind the 16 fixed bytes and the header, whose length stands
-- at byte 12.
pub asar_file-Inside :
    (lib : Libraries) (bytes name part : Text)
    → asar_file lib bytes name ≡ some part
    → Inside bytes part (8 + uint32_at 4 bytes)
      × (16 + uint32_at 12 bytes ≤ 8 + uint32_at 4 bytes)
      × (8 + uint32_at 4 bytes ≤ length bytes)
unfolding asar_file
asar_file-Inside lib bytes name part h = elim (Option-cases (parse_asar_header lib bytes)) [
  | inl bad ↦ cc (rw bad at h)
  | inr ((header, content), good) ↦
      let (offset, behind, fits) = header_room lib bytes header content good in
      let inside =
        entry_bytes-Inside lib bytes part content (find_entry name header.files) (rw good at h) in
      (subst (Inside bytes part) offset inside, rw offset at behind, rw offset at fits)
]
