-- ===== src/SelfEdit.antt =====
-- The registry of self-authored artefacts of src/core/fpsan_self_edit_registry.h. The time of a call, as
-- 100 ns intervals, is an argument; what a call writes to the CSV file and which files it deletes are
-- kept as lists, youngest last.
use engram_core.Prelude.{
  ℕ, zero, suc, ◌+◌, ◌-◌, ◌*◌, ◌%◌, ◌^◌, List, [], ◌∷◌, ◌++◌, Bool, true, false, ◌&&◌, ◌||◌, not,
  Option, none, some, ltb, leb, ◌==◌, if◌then◌else◌, take, Text, same_text,
}
pub mod Cap
pub mod Janitor

pub record SelfEditRecord : Type 0 where
  pub artefact_path : Text
  pub kind : Text
  pub created_episode : ℕ
  pub last_invocation_episode : ℕ
  pub last_invocation_ft : ℕ
  pub bytes_disk : ℕ
  pub bytes_rss_estimate : ℕ
  pub pruned_episode : ℕ
  pub l3_pinned : Bool

pub data Op : Type 0 where
  touched : Op
  created : Op
  pruned : Op

pub record SelfEditRegistry : Type 0 where
  pub records : List SelfEditRecord
  pub csv_rows : List (Op × SelfEditRecord)
  pub deleted : List Text

abbrev pub total_cap : ℕ
total_cap = 50 * 1024 * 1024

abbrev pub per_artefact_cap : ℕ
per_artefact_cap = 4 * 1024 * 1024

abbrev pub idle_episodes : ℕ
idle_episodes = 50

abbrev pub seven_days : ℕ
seven_days = 7 * 24 * 3600 * 10000000

unfoldable pub is_live : SelfEditRecord → Bool
is_live r = r.pruned_episode == 0

-- `total_bytes_disk` on a `uint64_t`.
unfoldable pub live_bytes : List SelfEditRecord → ℕ
unfolding is_live
live_bytes [] = 0
live_bytes (r ∷ rs) = (if is_live r then r.bytes_disk else 0) + live_bytes rs

unfoldable pub total_bytes_disk : SelfEditRegistry → ℕ
unfolding live_bytes
total_bytes_disk s = live_bytes s.records % 2 ^ 64

unfoldable pub is_artefact : Text → SelfEditRecord → Bool
unfolding is_live
is_artefact path r = is_live r && same_text r.artefact_path path

-- The first live record of the path, changed.
unfoldable pub touch_first :
    Text
    → (SelfEditRecord → SelfEditRecord)
    → List SelfEditRecord
    → Option (List SelfEditRecord × SelfEditRecord)
unfolding is_artefact
touch_first path f [] = none
touch_first path f (r ∷ rs) =
    if is_artefact path r
    then some (f r ∷ rs, f r)
    else elim (touch_first path f rs) [ none ↦ none | some (rs', r') ↦ some (r ∷ rs', r') ]

unfoldable pub refreshed : ℕ → ℕ → ℕ → Bool → SelfEditRecord → SelfEditRecord
refreshed now episode_now bytes pin r = record r {
  last_invocation_episode = episode_now;
  last_invocation_ft = now;
  l3_pinned = pin;
  bytes_disk = bytes;
}

-- `MAX_PATH` is 260.
unfoldable pub new_record : ℕ → Text → Text → ℕ → ℕ → Bool → SelfEditRecord
new_record now path kind episode_now bytes pin = record {
  artefact_path = take 259 path;
  kind = take 15 kind;
  created_episode = episode_now;
  last_invocation_episode = episode_now;
  last_invocation_ft = now;
  bytes_disk = bytes;
  bytes_rss_estimate = 0;
  pruned_episode = 0;
  l3_pinned = pin;
}

-- A null `path` or `kind` is `none`.
unfoldable pub register_or_touch :
    ℕ → Option Text → Option Text → ℕ → ℕ → Bool → SelfEditRegistry → SelfEditRegistry × Bool
unfolding touch_first refreshed new_record total_bytes_disk
register_or_touch now none kind episode_now bytes pin s = (s, false)
register_or_touch now (some path) none episode_now bytes pin s = (s, false)
register_or_touch now (some path) (some kind) episode_now bytes pin s =
    let fresh = new_record now path kind episode_now bytes pin in
    if ltb per_artefact_cap bytes
    then (s, false)
    else elim (touch_first path (refreshed now episode_now bytes pin) s.records) [
      | some (rs, r) ↦
          (record s { records = rs; csv_rows = s.csv_rows ++ ((touched, r) ∷ []) }, true)
      | none ↦ if ltb total_cap ((total_bytes_disk s + bytes) % 2 ^ 64) then (s, false) else (
        record s {
          records = s.records ++ (fresh ∷ []);
          csv_rows = s.csv_rows ++ ((created, fresh) ∷ []);
        },
        true,
      )
    ]

-- `old_ep || old_wall`; the difference of the times is one of `uint64_t`.
unfoldable pub is_idle : ℕ → ℕ → SelfEditRecord → Bool
is_idle now episode_now r =
    (ltb r.last_invocation_episode episode_now
      && leb idle_episodes (episode_now - r.last_invocation_episode))
    || leb seven_days ((now + 2 ^ 64 - r.last_invocation_ft % 2 ^ 64) % 2 ^ 64)

unfoldable pub is_due : ℕ → ℕ → SelfEditRecord → Bool
unfolding is_live is_idle
is_due now episode_now r = is_live r && (not r.l3_pinned && is_idle now episode_now r)

unfoldable pub sweep_loop : ℕ → ℕ → List SelfEditRecord → SelfEditRegistry → SelfEditRegistry
sweep_loop now episode_now [] s = s
sweep_loop now episode_now (r ∷ rs) s =
    let dead = record r { pruned_episode = episode_now } in
    sweep_loop now episode_now rs (
      if is_due now episode_now r
      then (record s {
        records = s.records ++ (dead ∷ []);
        csv_rows = s.csv_rows ++ ((pruned, dead) ∷ []);
        deleted = s.deleted ++ (r.artefact_path ∷ []);
      })
      else record s { records = s.records ++ (r ∷ []) })

unfoldable pub janitor_sweep : ℕ → ℕ → SelfEditRegistry → SelfEditRegistry
unfolding sweep_loop
janitor_sweep now episode_now s = sweep_loop now episode_now s.records (record s { records = [] })
