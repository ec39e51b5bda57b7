-- ===== src/Core/Json.antt =====
-- `JSON.stringify` and `JSON.parse` of the platform, for values of one type.
use baara_next.Base.{Option, some, ◌≡◌}
use baara_next.Core.Types.{Text}

-- `parse` answers `none` where `JSON.parse` throws.
pub record Codec {ℓ} (A : Type ℓ) : Type ℓ where
  pub stringify : A → Text
  pub parse : Text → Option A

-- What was written is read back.
abbrev pub IsFaithful {ℓ} : {A : Type ℓ} → Codec A → Type ℓ
IsFaithful c = (a : _) → c.parse (c.stringify a) ≡ some a
