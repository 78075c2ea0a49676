-- ===== src/Update/Apply.antt =====
-- internal/update/apply.go: how a staged executable takes the place of the program's. The files are
-- the executable (target), its backup (previous), the temporary and the staged one, and the pending
-- request; their paths are different, and nobody else changes them. A copy that is cut short leaves
-- a part of the bytes, from their beginning on. What filepath.Abs and Clean, JSON and the wait for processes answer are
-- arguments.
pub mod Rules
pub mod Safe
use bigducks_live.Base.{
  ℕ, zero, suc, Bool, true, false, not, ◌&&◌, ◌||◌, ◌==◌, List, [], ◌∷◌, ◌++◌, take, Option, none,
  some, if◌then◌else◌,
}
use bigducks_live.Base.Int.{ℤ, pos, negsuc}
use bigducks_live.Base.Text.{Text, text_eq, is_empty}
use bigducks_live.Errors.{Error, failure, Result, ok, err}
use bigducks_live.Effects.{M, act, act_cut, pure, fail, ◌>>=◌, ◌>>◌, attempt, ignore, or_cleanup}
use bigducks_live.Update.Manifest.{Manifest, Codec, verify_manifest, verify_asset}

pub record ApplyRequest : Type 0 where
  pub version : Text
  pub target_path : Text
  pub staged_path : Text
  pub manifest_raw : Text
  pub signature : Text
  pub wait_pids : List ℤ

pub data Place : Type 0 where
  staged target previous temporary pending : Place

-- `launched` says whether the program at the target's path was started.
pub record Files : Type 0 where
  pub staged_file : Option Text
  pub target_file : Option Text
  pub previous_file : Option Text
  pub temporary_file : Option Text
  pub pending_file : Option Text
  pub launched : Bool

abbrev pub at_place : Place → Files → Option Text
at_place staged x = x.staged_file
at_place target x = x.target_file
at_place previous x = x.previous_file
at_place temporary x = x.temporary_file
at_place pending x = x.pending_file

abbrev pub put : Place → Option Text → Files → Files
put staged b x = record x { staged_file = b }
put target b x = record x { target_file = b }
put previous b x = record x { previous_file = b }
put temporary b x = record x { temporary_file = b }
put pending b x = record x { pending_file = b }

abbrev pub same : Files → Files
same x = x

abbrev pub contents : Option Text → Result Text
contents none = err (failure "not exist")
contents (some bytes) = ok bytes

unfoldable pub read_file : Place → M Files Text
read_file p = act (λ x. (contents (at_place p x), x)) same

unfoldable pub create_temporary : M Files (Unit {0})
create_temporary = act (λ x. (ok tt, put temporary (some []) x)) same

-- An action that may fail, and leaves the files alone: Close and Sync.
unfoldable pub pass : M Files (Unit {0})
pass = act (λ x. (ok tt, x)) same

-- io.Copy
unfoldable pub write_temporary : Text → M Files (Unit {0})
write_temporary bytes =
    act_cut (λ x. (ok tt, put temporary (some bytes) x)) (λ n. put temporary (some (take n bytes)))

abbrev pub replaced : Place → Place → Option Text → Files → Result (Unit {0}) × Files
replaced p q none x = (err (failure "not exist"), x)
replaced p q (some bytes) x = (ok tt, put p none (put q (some bytes) x))

-- fileutil.Replace
unfoldable pub replace : Place → Place → M Files (Unit {0})
replace p q = act (λ x. replaced p q (at_place p x) x) same

abbrev pub removed : Place → Option Text → Files → Result (Unit {0}) × Files
removed p none x = (err (failure "not exist"), x)
removed p (some bytes) x = (ok tt, put p none x)

unfoldable pub remove : Place → M Files (Unit {0})
remove p = act (λ x. removed p (at_place p x) x) same

unfoldable pub launch : M Files (Unit {0})
launch = act (λ x. (ok tt, record x { launched = true })) same

-- `cleanup`: the close's error does not matter.
unfoldable pub discard_temporary : M Files (Unit {0})
discard_temporary = do ignore pass; ignore (remove temporary)

-- `if copyErr != nil || closeSourceErr != nil`
abbrev pub both : Result (Unit {0}) → Result (Unit {0}) → M Files (Unit {0})
both (err e) closed = fail e
both (ok _) (err e) = fail e
both (ok _) (ok _) = pure tt

unfoldable pub copy_staged : M Files (Unit {0})
copy_staged = do
  bytes ← read_file staged
  copied ← attempt (write_temporary bytes)
  closed ← attempt pass
  both copied closed
  pass

unfoldable pub replace_executable : M Files (Unit {0})
replace_executable = do
  create_temporary
  or_cleanup copy_staged discard_temporary
  or_cleanup pass (ignore (remove temporary))
  or_cleanup (replace target previous) (ignore (remove temporary))
  or_cleanup (replace temporary target)
      (do ignore (replace previous target); ignore (remove temporary))
  ignore (remove previous)

abbrev pub has_number : ℕ → List ℕ → Bool
has_number n [] = false
has_number n (m ∷ ms) = m == n || has_number n ms

-- The loop of uniquePositivePIDs, with the result so far, which is also what was seen.
unfoldable pub unique_loop : List ℕ → List ℤ → List ℕ
unique_loop result [] = result
unique_loop result (negsuc n ∷ values) = unique_loop result values
unique_loop result (pos zero ∷ values) = unique_loop result values
unique_loop result (pos (suc n) ∷ values) =
    unique_loop (if has_number (suc n) result then result else result ++ suc n ∷ []) values

unfoldable pub unique_positive_pids : List ℤ → List ℕ
unfolding unique_loop
unique_positive_pids values = unique_loop [] values

pub record Surroundings : Type 0 where
  pub abs : Text → Result Text
  pub clean : Text → Text
  pub wait : List ℕ → Option Error
  pub decode_request : Text → Option ApplyRequest

abbrev pub waited : Option Error → M Files (Unit {0})
waited none = pure tt
waited (some e) = fail (failure "wait for BIG DUCKS processes")

module _ (codec : Codec) (around : Surroundings) (public_key : Text) where
  abbrev pub with_asset : ApplyRequest → Option Error → M Files (Unit {0})
  with_asset request (some e) = fail e
  with_asset request none = do
    waited (around.wait (unique_positive_pids request.wait_pids))
    replace_executable
    launch

  abbrev pub with_paths : ApplyRequest → Manifest → Result Text → Result Text → M Files (Unit {0})
  with_paths request m (err e) to = fail (failure "resolve staged update")
  with_paths request m (ok from) (err e) = fail (failure "resolve update target")
  with_paths request m (ok from) (ok to) =
      if text_eq (around.clean from) (around.clean to)
      then fail (failure "staged update cannot overwrite itself")
      else (read_file staged >>= λ bytes. with_asset request (verify_asset codec m bytes))

  abbrev pub with_manifest : ApplyRequest → Result Manifest → M Files (Unit {0})
  with_manifest request (err e) = fail e
  with_manifest request (ok m) =
      if not (is_empty request.version) && not (text_eq request.version m.version)
      then fail (failure "update request version does not match its signed manifest")
      else with_paths request m (around.abs request.staged_path) (around.abs request.target_path)

  unfoldable pub apply : ApplyRequest → M Files (Unit {0})
  apply request =
      with_manifest request
        (verify_manifest codec request.manifest_raw request.signature public_key)

  abbrev pub is_incomplete : ApplyRequest → Bool
  is_incomplete request =
      is_empty request.target_path
      || is_empty request.staged_path
      || is_empty request.manifest_raw
      || is_empty request.signature

  abbrev pub decoded : Option ApplyRequest → M Files ApplyRequest
  decoded none = fail (failure "decode update request")
  decoded (some request) =
      if is_incomplete request then fail (failure "update request is incomplete") else pure request

  unfoldable pub load_apply_request : M Files ApplyRequest
  load_apply_request = read_file pending >>= λ bytes. decoded (around.decode_request bytes)

  unfoldable pub apply_from_request : M Files (Unit {0})
  apply_from_request = do request ← load_apply_request; apply request; ignore (remove pending)
