-- ===== src/Base/Rows.antt =====
-- A table as the list of its rows in insertion order, each row with a primary key.
use Prim.Native.Nat.{ℕ}
use mathlib.Core.Path.{◌≡◌, refl}
use mathlib.Core.Logic.{◌≢◌}
use mathlib.Core.Option.{Option, none, some}
use mathlib.Core.List.{List, [], ◌∷◌, ◌++◌}
use native.Mathlib.Omega.{arith}
use baara_next.Base.Tests.{◌==◌, if◌then◌else◌}
use mathlib.Core.Bool.{true, Bool}
use baara_next.Base.Lists.{or_else, map_some, is_some, All, keep}

module _ {ℓ} {A : Type ℓ} (key : A → ℕ) where
  -- `SELECT * FROM rows WHERE id = ?`
  abbrev pub find : ℕ → List A → Option A
  find k [] = none
  find k (x ∷ xs) = if key x == k then some x else find k xs

  -- `UPDATE rows SET … WHERE id = ?`
  abbrev pub update : ℕ → (A → A) → List A → List A
  update k f [] = []
  update k f (x ∷ xs) = (if key x == k then f x else x) ∷ update k f xs

  -- `DELETE FROM rows WHERE id = ?`
  abbrev pub remove : ℕ → List A → List A
  remove k [] = []
  remove k (x ∷ xs) = if key x == k then remove k xs else x ∷ remove k xs

  -- `Map.set`: a key that is there keeps its place.
  abbrev pub set_in : A → List A → List A
  set_in a [] = a ∷ []
  set_in a (x ∷ xs) = if key x == key a then a ∷ xs else x ∷ set_in a xs

  -- No two rows have one key.
  abbrev pub Distinct : List A → Type ℓ
  Distinct [] = Unit
  Distinct (x ∷ xs) = (find (key x) xs ≡ none) × Distinct xs

  pub find-key : (k : ℕ) (xs : List A) (a : A) → find k xs ≡ some a → key a ≡ k
  find-key k [] a h = cc
  find-key k (x ∷ xs) a h = ground (arith, find-key k xs a)

  pub find-append : (k : ℕ) (xs ys : List A) → find k (xs ++ ys) ≡ or_else (find k xs) (find k ys)
  find-append k [] ys = refl
  find-append k (x ∷ xs) ys = ground (arith, find-append k xs ys)

  pub find-remove_self : (k : ℕ) (xs : List A) → find k (remove k xs) ≡ none
  find-remove_self k [] = refl
  find-remove_self k (x ∷ xs) = ground (arith, find-remove_self k xs)

  pub find-remove_ne : (j k : ℕ) (xs : List A) → j ≢ k → find j (remove k xs) ≡ find j xs
  find-remove_ne j k [] h = refl
  find-remove_ne j k (x ∷ xs) h = ground (arith, find-remove_ne j k xs h)

  pub find-remove-none : (j k : ℕ) (xs : List A) → find j xs ≡ none → find j (remove k xs) ≡ none
  find-remove-none j k [] h = refl
  find-remove-none j k (x ∷ xs) h = ground (arith, find-remove-none j k xs)

  pub remove-Distinct : (k : ℕ) (xs : List A) → Distinct xs → Distinct (remove k xs)
  remove-Distinct k [] d = tt
  remove-Distinct k (x ∷ xs) d =
      ground (arith, remove-Distinct k xs d.1, find-remove-none (key x) k xs)

  pub append-Distinct :
      (xs : List A) (a : A) → Distinct xs → find (key a) xs ≡ none → Distinct (xs ++ a ∷ [])
  append-Distinct [] a d h = (refl, tt)
  append-Distinct (x ∷ xs) a d h =
      ground (arith, append-Distinct xs a d.1, find-append (key x) xs (a ∷ []))

  pub All-find {κ} :
      (P : A → Type κ) (k : ℕ) (xs : List A) (a : A) → All P xs → find k xs ≡ some a → P a
  All-find P k [] a h e = cc
  All-find P k (x ∷ xs) a h e = ground (arith, All-find P k xs a h.1)

  pub All-update {κ} :
      (P : A → Type κ) (k : ℕ) (f : A → A) (xs : List A)
      → ((a : A) → P a → P (f a))
      → All P xs
      → All P (update k f xs)
  All-update P k f [] g h = tt
  All-update P k f (x ∷ xs) g h = ground (arith, All-update P k f xs g h.1, g x h.0)

  pub is_some-find-append :
      (k : ℕ) (xs ys : List A) → is_some (find k xs) ≡ true → is_some (find k (xs ++ ys)) ≡ true
  is_some-find-append k xs ys h = ground (arith, find-append k xs ys)

  pub find-keep-none :
      (k : ℕ) (p : A → Bool) (xs : List A) → find k xs ≡ none → find k (keep p xs) ≡ none
  find-keep-none k p [] h = refl
  find-keep-none k p (x ∷ xs) h = ground (arith, find-keep-none k p xs)

  pub keep-Distinct : (p : A → Bool) (xs : List A) → Distinct xs → Distinct (keep p xs)
  keep-Distinct p [] d = tt
  keep-Distinct p (x ∷ xs) d =
      ground (arith, keep-Distinct p xs d.1, find-keep-none (key x) p xs d.0)

  module _ (k : ℕ) (f : A → A) (kept : (a : A) → key (f a) ≡ key a) where
    pub find-update_self : (xs : List A) → find k (update k f xs) ≡ map_some f (find k xs)
    find-update_self [] = refl
    find-update_self (x ∷ xs) = ground (arith, kept x, find-update_self xs)

    pub find-update_ne : (j : ℕ) (xs : List A) → j ≢ k → find j (update k f xs) ≡ find j xs
    find-update_ne j [] h = refl
    find-update_ne j (x ∷ xs) h = ground (arith, kept x, find-update_ne j xs h)

    pub find-update-none : (j : ℕ) (xs : List A) → find j xs ≡ none → find j (update k f xs) ≡ none
    find-update-none j [] h = refl
    find-update-none j (x ∷ xs) h = ground (arith, kept x, find-update-none j xs)

    pub update-Distinct : (xs : List A) → Distinct xs → Distinct (update k f xs)
    update-Distinct [] d = tt
    update-Distinct (x ∷ xs) d =
        ground (arith, kept x, update-Distinct xs d.1, find-update-none (key x) xs d.0)

    pub is_some-find-update :
        (j : ℕ) (xs : List A) → is_some (find j xs) ≡ true → is_some (find j (update k f xs)) ≡ true
    is_some-find-update j [] h = h
    is_some-find-update j (x ∷ xs) h = ground (arith, kept x, is_some-find-update j xs)
