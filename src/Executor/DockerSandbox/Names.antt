-- ===== src/Executor/DockerSandbox/Names.antt =====
-- The container names of packages/executor/src/sandboxes/docker.ts.
use baara_next.Base.{ℕ, suc, [], ◌∷◌, ◌++◌, true, ◌≡◌, refl, arith, All, take, codes}
use baara_next.Core.Types.{Text}
use baara_next.Executor.DockerSandbox.{is_name_char, clean, container_name}

-- Every character is one that docker takes in a name.
abbrev pub IsName : Text → Type 0
IsName = All (λ c. is_name_char c ≡ true)

clean-IsName : (text : Text) → IsName (clean text)
clean-IsName [] = tt
clean-IsName (c ∷ text) = ground (arith, clean-IsName text)

IsName-append : (s t : Text) → IsName s → IsName t → IsName (s ++ t)
IsName-append [] t h k = k
IsName-append (c ∷ s) t h k = (h.0, IsName-append s t h.1 k)

take-IsName : (n : ℕ) (text : Text) → IsName text → IsName (take n text)
take-IsName ℕ.zero text h = tt
take-IsName (suc n) [] h = tt
take-IsName (suc n) (c ∷ text) h = (h.0, take-IsName n text h.1)

-- Whatever the id of the execution, and for a drawn id of letters, digits and dashes, the name of the
-- container has only characters that docker takes in a name, and it begins with `baara-`, so it is
-- never read as an option.
pub container_name-IsName :
    (execution_id uuid : Text)
    → IsName uuid
    → IsName (container_name execution_id uuid)
      × (take 6 (container_name execution_id uuid) ≡ codes "baara-")
unfolding container_name
container_name-IsName execution_id uuid h = (
  IsName-append (codes "baara-") _ (refl, (refl, (refl, (refl, (refl, (refl, tt))))))
      (IsName-append (clean execution_id) _ (clean-IsName execution_id)
        (refl, take-IsName 8 uuid h)),
  refl,
)
