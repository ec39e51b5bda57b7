-- ===== src/Store/Settings.antt =====
-- The settings of packages/store/src/sqlite-store.ts: one row for each key.
use baara_next.Base.{ℕ, List, [], ◌∷◌, Option, find, map_some, if◌then◌else◌, ◌==◌}
use baara_next.Core.Types.{Key, Text}

pub record Setting : Type 0 where
  pub key : Key
  pub value : Text
  pub updated_at : ℕ

-- `getSetting`
abbrev pub get_setting : Key → List Setting → Option Text
get_setting key settings = map_some (λ (r : Setting). r.value) (find (λ r. r.key) key settings)

-- `setSetting`: a new row, or a new value of the row that is there.
abbrev pub set_setting : Key → Text → (now : ℕ) → List Setting → List Setting
set_setting key value now [] = (record { key = key; value = value; updated_at = now }) ∷ []
set_setting key value now (r ∷ rs) =
    if r.key == key
    then (record r { value = value; updated_at = now }) ∷ rs
    else r ∷ set_setting key value now rs
