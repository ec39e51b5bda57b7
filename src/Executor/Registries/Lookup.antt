-- ===== src/Executor/Registries/Lookup.antt =====
-- What the registries of packages/executor/src/runtime-registry.ts and sandbox-registry.ts find.
use baara_next.Base.{
  set_in, List, [], ◌∷◌, ◌++◌, Bool, true, false, ◌||◌, none, some, ◌≡◌, ◌≢◌, refl, arith, ◌==◌,
  ==_refl, find, Distinct, append-Distinct, exists_in, Bool-cases, inl, inr, subst, ◌∙◌,
}
use baara_next.Core.Types.{Key}
use baara_next.Executor.Registries.{
  Runtime, add_capabilities, gather_capabilities, get_all_capabilities,
}

module _ {ℓ} {A : Type ℓ} (name : A → Key) where
  pub find-set_in_self : (a : A) (xs : List A) → find name (name a) (set_in name a xs) ≡ some a
  find-set_in_self a [] = rw (==_refl (name a)) refl
  find-set_in_self a (x ∷ xs) = ground (arith, find-set_in_self a xs)

  pub find-set_in_ne :
      (k : Key) (a : A) (xs : List A) → k ≢ name a → find name k (set_in name a xs) ≡ find name k xs
  find-set_in_ne k a [] h = ground arith
  find-set_in_ne k a (x ∷ xs) h = ground (arith, find-set_in_ne k a xs h)

  pub set_in-Distinct : (a : A) (xs : List A) → Distinct name xs → Distinct name (set_in name a xs)
  set_in-Distinct a [] d = (refl, tt)
  set_in-Distinct a (x ∷ xs) d = elim (Bool-cases (name x == name a)) [
    | inl same ↦
        let e : name x ≡ name a = ground arith in
        rw same (subst (λ k. find name k xs ≡ none) e d.0, d.1)
    | inr new ↦
        let apart : name x ≢ name a = ground arith in
        rw new (find-set_in_ne (name x) a xs apart ∙ d.0, set_in-Distinct a xs d.1)
  ]

-- Whether the list holds the key.
abbrev pub holds : Key → List Key → Bool
holds k ks = exists_in (λ c. c == k) ks

-- Whether one of the runtimes has the capability.
abbrev pub offered : Key → List Runtime → Bool
offered k rs = exists_in (λ r. holds k r.capabilities) rs

holds-append_one : (k c : Key) (ks : List Key) → holds k (ks ++ c ∷ []) ≡ (holds k ks || c == k)
holds-append_one k c [] = ground arith
holds-append_one k c (x ∷ ks) = ground (arith, holds-append_one k c ks)

find-holds : (k : Key) (ks : List Key) → holds k ks ≡ false → find (λ c. c) k ks ≡ none
find-holds k [] h = refl
find-holds k (x ∷ ks) h = ground (arith, find-holds k ks)

add_capabilities_lem :
    (k : Key) (cs seen : List Key)
    → Distinct (λ c. c) seen
    → Distinct (λ c. c) (add_capabilities cs seen)
      × (holds k (add_capabilities cs seen) ≡ (holds k seen || holds k cs))
add_capabilities_lem k [] seen d = (d, ground arith)
add_capabilities_lem k (c ∷ cs) seen d = elim (Bool-cases (exists_in (λ x. x == c) seen)) [
  | inl there ↦
      let rest = add_capabilities_lem k cs seen d in
      let known : (c ≡ k) → holds k seen ≡ true = λ e. subst (λ x. holds x seen ≡ true) e there in
      rw there (rest.0, ground arith)
  | inr new ↦
      let rest =
        add_capabilities_lem k cs (seen ++ c ∷ [])
          (append-Distinct _ seen c d (find-holds c seen new)) in
      let one = holds-append_one k c seen in rw new (rest.0, ground arith)
]

gather_capabilities_lem :
    (k : Key) (rs : List Runtime) (seen : List Key)
    → Distinct (λ c. c) seen
    → Distinct (λ c. c) (gather_capabilities rs seen)
      × (holds k (gather_capabilities rs seen) ≡ (holds k seen || offered k rs))
gather_capabilities_lem k [] seen d = (d, ground arith)
gather_capabilities_lem k (r ∷ rs) seen d =
    let first = add_capabilities_lem k r.capabilities seen d in
    let rest = gather_capabilities_lem k rs (add_capabilities r.capabilities seen) first.0 in
    (rest.0, ground arith)

-- The capabilities of the registered runtimes are listed without repetition, and a capability is
-- among them exactly if one of the runtimes has it.
pub get_all_capabilities-Distinct :
    (k : Key) (registry : List Runtime)
    → Distinct (λ c. c) (get_all_capabilities registry)
      × (holds k (get_all_capabilities registry) ≡ offered k registry)
unfolding get_all_capabilities
get_all_capabilities-Distinct k registry = gather_capabilities_lem k registry [] tt
