-- ===== src/Proxy/State.antt =====
-- internal/proxy/pool.go: SaveState and LoadState, over the state's file and the temporary one beside
-- it. JSON is an argument. A write that is cut short leaves a part of the text in the temporary file.
-- Times are nanoseconds since 1970, those in the file seconds; a duration `ttl` of 0 stands for every
-- `ttl <= 0`.
pub mod Kept
use bigducks_live.Base.{
  ℕ, ◌+◌, ◌*◌, ◌/◌, Bool, true, false, ◌||◌, ◌==◌, ltb, List, [], ◌∷◌, take, Option, none, some,
  if◌then◌else◌,
}
use bigducks_live.Base.Text.{Text}
use bigducks_live.Errors.{failure, Result, ok, err}
use bigducks_live.Effects.{M, act, act_cut, pure, fail, ◌>>=◌, ◌>>◌, attempt, ignore, or_cleanup}
use bigducks_live.Model.{VerifiedEndpoint}

pub record State : Type 0 where
  pub pool : List VerifiedEndpoint
  pub saved_run : Text
  pub installed : Bool
  pub updated_at : ℕ

pub record StateCodec : Type 0 where
  pub marshal : State → Option Text
  pub unmarshal : Text → Option State

pub record StateFiles : Type 0 where
  pub state_file : Option Text
  pub temporary_file : Option Text

abbrev pub same : StateFiles → StateFiles
same x = x

abbrev pub second : ℕ
second = 1_000_000_000

-- os.MkdirAll of the folder.
unfoldable pub make_folder : M StateFiles (Unit {0})
make_folder = act (λ x. (ok tt, x)) same

unfoldable pub write_temporary : Text → M StateFiles (Unit {0})
write_temporary bytes =
    act_cut (λ x. (ok tt, record x { temporary_file = some bytes }))
      (λ n x. record x { temporary_file = some (take n bytes) })

abbrev pub replaced : Option Text → StateFiles → Result (Unit {0}) × StateFiles
replaced none x = (err (failure "not exist"), x)
replaced (some bytes) x = (ok tt, record { state_file = some bytes; temporary_file = none })

unfoldable pub replace_state : M StateFiles (Unit {0})
replace_state = act (λ x. replaced x.temporary_file x) same

unfoldable pub remove_temporary : M StateFiles (Unit {0})
remove_temporary = act (λ x. (ok tt, record x { temporary_file = none })) same

-- os.ReadFile, or none if the file does not exist.
unfoldable pub read_state : M StateFiles (Option Text)
read_state = act (λ x. (ok x.state_file, x)) same

abbrev pub state_of : List VerifiedEndpoint → ℕ → State
state_of entries now = record {
  pool = entries;
  saved_run = [];
  installed = false;
  updated_at = now / second;
}

abbrev pub write_state : Option Text → M StateFiles (Unit {0})
write_state none = fail (failure "encode proxy state")
write_state (some bytes) = do
  write_temporary bytes
  or_cleanup replace_state (ignore remove_temporary)

-- `state.UpdatedAt == 0 || ttl <= 0 || now.Sub(time.Unix(state.UpdatedAt, 0)) > ttl`
abbrev pub is_stale : ℕ → ℕ → ℕ → Bool
is_stale updated_at now ttl = updated_at == 0 || ttl == 0 || ltb (updated_at * second + ttl) now

abbrev pub loaded : ℕ → ℕ → Option State → M StateFiles (List VerifiedEndpoint)
loaded now ttl none = fail (failure "decode proxy state")
loaded now ttl (some state) = if is_stale state.updated_at now ttl then pure [] else pure state.pool

module _ (codec : StateCodec) where
  unfoldable pub save_state : Bool → List VerifiedEndpoint → ℕ → M StateFiles (Unit {0})
  save_state path_is_empty entries now =
      if path_is_empty
      then fail (failure "state path is empty")
      else (do make_folder; write_state (codec.marshal (state_of entries now)))

  abbrev pub decode_state : ℕ → ℕ → Option Text → M StateFiles (List VerifiedEndpoint)
  decode_state now ttl none = pure []
  decode_state now ttl (some bytes) = loaded now ttl (codec.unmarshal bytes)

  unfoldable pub load_state : ℕ → ℕ → M StateFiles (List VerifiedEndpoint)
  load_state now ttl = read_state >>= decode_state now ttl
