-- ===== src/Store/Migrations/Versions.antt =====
-- The version that packages/store/src/migrations.ts writes and reads back.
use baara_next.Base.{
  ℕ, zero, suc, ◌+◌, ◌-◌, ◌*◌, ◌/◌, ◌%◌, ◌<◌, List, [], ◌∷◌, ◌++◌, true, false, some, ◌≡◌, refl,
  arith, subst, ==_refl, Option-cases, All, All-append_one, decimal, digits, ltb, Bool-cases, inl,
  inr, is_white,
}
use baara_next.Core.Errors.{ok}
use baara_next.Core.Types.{Key, Text}
use baara_next.Store.Settings.{Setting, get_setting, set_setting}
use baara_next.Store.Migrations.{
  is_digit, more_digits, leading_number, parse_int, version_key, Database, set_version,
  current_version,
}

-- The numbers that `digits` writes with that fuel.
abbrev pub bound : ℕ → ℕ
bound zero = 10
bound (suc fuel) = 10 * bound fuel

more_digits-append :
    (n : ℕ) (text : Text) (d : ℕ)
    → All (λ c. is_digit c ≡ true) text
    → d < 10
    → more_digits n (text ++ (48 + d) ∷ []) ≡ more_digits n text * 10 + d
more_digits-append n [] d h l = ground arith
more_digits-append n (c ∷ text) d h l =
    ground (arith, more_digits-append (n * 10 + (c - 48)) text d h.1)

absurd_start : {A : Type 0} (n : ℕ) → leading_number [] ≡ some n → A
absurd_start n h = cc

reads_more :
    (c : ℕ) (text : Text) (n : ℕ)
    → is_digit c ≡ true
    → leading_number (c ∷ text) ≡ some n
    → more_digits (c - 48) text ≡ n
reads_more c text n d h = ground arith

-- A text of digits that makes the number.
record Writes (text : Text) (n : ℕ) : Type 0 where
  all_digits : All (λ c. is_digit c ≡ true) text
  reads : leading_number text ≡ some n

one_digit : (d : ℕ) → d < 10 → Writes ((48 + d) ∷ []) d
one_digit d l = record { all_digits = (ground arith, tt); reads = ground arith }

append-Writes :
    (text : Text) (n d : ℕ) → Writes text n → d < 10 → Writes (text ++ (48 + d) ∷ []) (n * 10 + d)
append-Writes [] n d w l = absurd_start n w.reads
append-Writes (c ∷ text) n d w l =
    let digit : is_digit (48 + d) ≡ true = ground arith in
    let first : is_digit c ≡ true = w.all_digits.0 in
    let number : more_digits (c - 48) text ≡ n = reads_more c text n first w.reads in
    record {
      all_digits = All-append_one _ (c ∷ text) (48 + d) w.all_digits digit;
      reads = rw (first, more_digits-append (c - 48) text d w.all_digits.1 l, number) refl;
    }

digits-Writes : (fuel n : ℕ) → n < bound fuel → Writes (digits fuel n) n
digits-Writes zero n l = let same : n % 10 ≡ n = omega arith in rw same (one_digit n l)
digits-Writes (suc fuel) n l = elim (Bool-cases (ltb n 10)) [
  | inl small ↦ rw small (one_digit n (ground arith))
  | inr big ↦
      let rest = digits-Writes fuel (n / 10) (omega arith) in
      let whole : n / 10 * 10 + n % 10 ≡ n = omega arith in
      rw big (
        subst (Writes (digits fuel (n / 10) ++ (48 + n % 10) ∷ [])) whole
          (append-Writes (digits fuel (n / 10)) (n / 10) (n % 10) rest (omega arith)))
]

parse_int-Writes : (text : Text) (n : ℕ) → Writes text n → parse_int text ≡ some n
parse_int-Writes [] n w = w.reads
parse_int-Writes (c ∷ text) n w =
    let digit : is_digit c ≡ true = w.all_digits.0 in
    let black : is_white c ≡ false = ground arith in rw black w.reads

-- The version that is set is the one that is read, below 10^21.
pub parse_int-decimal : (n : ℕ) → n < bound 20 → parse_int (decimal n) ≡ some n
parse_int-decimal n l = parse_int-Writes (decimal n) n (digits-Writes 20 n l)

get_setting-set_setting :
    (key : Key) (value : Text) (now : ℕ) (rows : List Setting)
    → get_setting key (set_setting key value now rows) ≡ some value
get_setting-set_setting key value now [] = rw (==_refl key) refl
get_setting-set_setting key value now (r ∷ rows) =
    ground (arith, get_setting-set_setting key value now rows)

pub current_version-set_version :
    {A : Type 0} (version now : ℕ) (db after : Database A)
    → version < bound 20
    → set_version version now db ≡ ok after
    → current_version after ≡ some version
unfolding set_version current_version
current_version-set_version version now db after l h = elim (Option-cases db.settings) [
  | inl missing ↦ ground arith
  | inr (rows, there) ↦
      let same : after.settings ≡ some (set_setting version_key (decimal version) now rows) =
        ground arith in
      rw
        (
          current_version,
          same,
          get_setting-set_setting version_key (decimal version) now rows,
          parse_int-decimal version l,
        )
        refl
]
