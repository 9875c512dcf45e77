-- ===== src/Registry/Balance/Batches.antt =====
-- The batches in which `updateDynamicWeight` (RegistryServer/LoadBalanceThread.cpp) asks for the
-- data of all servants.
use mathlib.Core.List.{flatten, append_assoc}
use tars_framework.Base.{
  String, ◌≡◌, refl, ◌∙◌, ◌≤◌, ◌<◌, List, [], ◌∷◌, ◌++◌, arith, leb, length, All, inl, inr,
  Bool-cases, length-append,
}
use tars_framework.Registry.Balance.{LoadCache, query_max_size, query_batches}

-- One query after another.
abbrev pub run_queries :
    (List String → LoadCache → LoadCache) → List (List String) → LoadCache → LoadCache
run_queries query [] cache = cache
run_queries query (batch ∷ rest) cache = run_queries query rest (query batch cache)

abbrev pub IsBatch : List String → Type 0
IsBatch batch = (1 ≤ length batch) × (length batch ≤ query_max_size)

-- How a run of the loop splits the servants.
abbrev pub Splits :
    (List String → LoadCache → LoadCache) → List String → List String → LoadCache → Type 0
Splits query vt_server servants cache =
    (batches : List (List String)) × (flatten batches ≡ vt_server ++ servants)
    × All IsBatch batches
    × (query_batches query vt_server servants cache ≡ run_queries query batches cache)

-- Whatever stands in the pending batch, each servant is asked for once, in order, in batches of 1
-- to 300 servants.
pub query_batches_split :
    (query : List String → LoadCache → LoadCache) (vt_server servants : List String)
    (cache : LoadCache)
    → length vt_server < query_max_size
    → Splits query vt_server servants cache
unfolding query_batches flatten
query_batches_split query [] [] cache h = ([], refl, tt, refl)
query_batches_split query (v ∷ vs) [] cache h =
    ((v ∷ vs) ∷ [], refl, ((omega arith, omega arith), tt), refl)
query_batches_split query vt_server (servant ∷ rest) cache h =
    elim (Bool-cases (leb query_max_size (length (vt_server ++ servant ∷ [])))) [
      | inl full ↦
          let (batches, split, sizes, run) =
            query_batches_split query [] rest (query (vt_server ++ servant ∷ []) cache)
              (omega arith) in
          (
            (vt_server ++ servant ∷ []) ∷ batches,
            rw split (append_assoc vt_server (servant ∷ []) rest),
            (
              (
                omega (arith, length-append vt_server (servant ∷ [])),
                omega (arith, length-append vt_server (servant ∷ [])),
              ),
              sizes,
            ),
            rw full run,
          )
      | inr more ↦
          let (batches, split, sizes, run) =
            query_batches_split query (vt_server ++ servant ∷ []) rest cache (ground arith) in
          (batches, split ∙ append_assoc vt_server (servant ∷ []) rest, sizes, rw more run)
    ]
