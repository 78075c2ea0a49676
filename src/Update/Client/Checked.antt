-- ===== src/Update/Client/Checked.antt =====
-- What the client of internal/update/client.go takes from a server.
use bigducks_live.Base.{
  ℕ, ◌+◌, ◌*◌, ◌≡◌, ◌⊎◌, ◌≤◌, ◌∙◌, refl, sym, ap, Bool, true, false, not, ◌||◌, ltb, leb, ◌==◌,
  ==_iff, Option, none, some, length, take, length-take, if◌then◌else◌, Bool-cases, inl, inr,
  leb→le, arith,
}
use bigducks_live.Base.Text.{Text}
use bigducks_live.Errors.{Error, failure, Result, ok, err}
use bigducks_live.Update.Client.{
  Response, ReleaseServer, and_then, longer_than, read_limited, receive, download,
}

pub Result-cases :
    {A : Type 0} (x : Result A) → ((e : Error) × (x ≡ err e)) ⊎ ((a : A) × (x ≡ ok a))
Result-cases (ok a) = inr (a, refl)
Result-cases (err e) = inl (e, refl)

not-true : (b : Bool) → not b ≡ false → b ≡ true
not-true true h = refl
not-true false h = cc

neither : (a b : Bool) → (a || b) ≡ false → (a ≡ false) × (b ≡ false)
neither a b h = ground arith

read_limited_whole :
    (r : Response) (maximum : ℕ) (bytes : Text)
    → read_limited r maximum ≡ ok bytes
    → length bytes ≤ maximum
    → bytes ≡ r.body
unfolding read_limited
read_limited_whole r maximum bytes h small = elim (Bool-cases (leb (maximum + 1) (length r.body))) [
  | inl long ↦
      let e : take (maximum + 1) r.body ≡ bytes = cc (rw long at h) in
      absurd (
        omega (
          arith,
          length-take (maximum + 1) r.body,
          ap length e,
          leb→le (maximum + 1) (length r.body) long,
        ))
  | inr whole ↦ at_end r.body_error (rw whole at h)
]
  where
    at_end :
        (e : Option Error)
        → ◌≡◌ {A = Result Text} (elim e [ none ↦ ok r.body | some e ↦ err e ]) (ok bytes)
        → bytes ≡ r.body
    at_end none h = let same : r.body ≡ bytes = cc h in sym same
    at_end (some e) h = cc

-- The body of a response with status 200 that is not longer than allowed.
abbrev Body : ℕ → Response → Text → Type 0
Body maximum r bytes = (r.status_code ≡ 200) × (bytes ≡ r.body) × (length bytes ≤ maximum)

receive_read :
    (maximum : ℕ) (r : Response) (bytes : Text) (read : Result Text)
    → read_limited r maximum ≡ read
    → r.status_code ≡ 200
    → and_then read (λ bytes'.
      if ltb maximum (length bytes')
      then err (failure "download is larger than the allowed bytes")
      else ok bytes')
      ≡ ok bytes
    → Body maximum r bytes
receive_read maximum r bytes (err e) got good h = cc
receive_read maximum r bytes (ok bytes') got good h =
    elim (Bool-cases (ltb maximum (length bytes'))) [
      | inl long ↦ cc (rw long at h)
      | inr short ↦
          let same : bytes' ≡ bytes = cc (rw short at h) in
          let small : length bytes ≤ maximum = let l = ap length same in ground arith in
          (good, read_limited_whole r maximum bytes (got ∙ ap ok same) small, small)
    ]

receive-Body :
    (maximum : ℕ) (r : Response) (bytes : Text)
    → receive maximum r ≡ ok bytes
    → Body maximum r bytes
unfolding receive
receive-Body maximum r bytes h = elim (Bool-cases (r.status_code == 200)) [
  | inr other ↦ cc (rw other at h)
  | inl good ↦
      let h1 = rw good at h in
      elim (Bool-cases (longer_than r.content_length maximum)) [
        | inl long ↦ cc (rw long at h1)
        | inr fits ↦
            receive_read maximum r bytes (read_limited r maximum) refl
              ((==_iff r.status_code 200).0 good) (rw fits at h1)
      ]
]

-- A download gives the whole body of a response with status 200, of at most as many bytes as were
-- allowed: never a part of a longer one.
pub download-body :
    (server : ReleaseServer) (url : Text) (maximum : ℕ) (bytes : Text)
    → download server url maximum ≡ ok bytes
    → (r : Response) × (server.get url ≡ ok r)
      × (r.status_code ≡ 200)
      × (bytes ≡ r.body)
      × (length bytes ≤ maximum)
unfolding download
download-body server url maximum bytes h =
    elim (Bool-cases (ltb maximum 1 || ltb (100 * 1024 * 1024) maximum)) [
      | inl invalid ↦ cc (rw invalid at h)
      | inr valid ↦
          let h1 = rw valid at h in
          elim (Result-cases (server.get url)) [
            | inl (e, failed) ↦ cc (rw failed at h1)
            | inr (r, got) ↦
                let body = receive-Body maximum r bytes (rw got at h1) in
                (r, got, body.0, body.1, body.2)
          ]
    ]
