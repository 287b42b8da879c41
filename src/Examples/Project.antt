-- ===== src/Examples/Project.antt =====
-- The selection of versions for a small project.
use qy.Prelude.{
  ℕ, ◌≡◌, refl, ap, subst, inl, inr, Option, some, none, List, [], ◌∷◌, suc, length, if◌then◌else◌,
  ◌&&◌,
}
use qy.Prelude.Members.{some_inj}
use qy.Prelude.Int.{pos, negsuc}
use qy.Project.Version.{Text, compare_versions}
use qy.Project.Version
use qy.Project.Resolve.{Dependency, Manifest, ResolvedModule, Provider, same_text, get, resolve}
use qy.Project.Resolve
use qy.Project.Closed.{AllMet, ManifestMet, resolve-AllMet}
use qy.Project.Ends.{IsUniverse, AllWithin, resolve-ends}

-- "1", "1.2", "1.2.0" and "1.10".
abbrev one : Text
one = 49 ∷ []

abbrev one_two : Text
one_two = 49 ∷ 46 ∷ 50 ∷ []

abbrev one_two_zero : Text
one_two_zero = 49 ∷ 46 ∷ 50 ∷ 46 ∷ 48 ∷ []

abbrev one_ten : Text
one_ten = 49 ∷ 46 ∷ 49 ∷ 48 ∷ []

-- A longer version is larger, also by a zero.
zeros_count : compare_versions one_two one_two_zero ≡ negsuc 0
unfolding compare_versions Version.parse_version Version.split_dots Version.leading_number
zeros_count = refl

by_numbers : compare_versions one_ten one_two ≡ pos 1
unfolding compare_versions Version.parse_version Version.split_dots Version.leading_number
by_numbers = refl

abbrev needs : ℕ → Text → Dependency
needs p v = record { path = p ∷ []; min_version = v }

abbrev manifest : ℕ → Text → List Dependency → Manifest
manifest p v deps = record { pkg_path = p ∷ []; version = v; dependencies = deps }

abbrev entry : ℕ → Text → ResolvedModule
entry p v = record { path = p ∷ []; version = v }

-- The module 98 at version 1 needs the module 97 at 1.10.
abbrev provider : Provider
provider p v =
    if same_text p (98 ∷ []) && same_text v one
    then some (manifest 98 one (needs 97 one_ten ∷ []))
    else none

abbrev root : Manifest
root = manifest 0 one (needs 97 one_two ∷ needs 98 one ∷ [])

abbrev universe : List ResolvedModule
universe = entry 97 one_two ∷ entry 98 one ∷ entry 97 one_ten ∷ []

abbrev chosen : List ResolvedModule
chosen = entry 97 one_ten ∷ entry 98 one ∷ []

chooses : resolve provider 4 root ≡ some chosen
unfolding resolve Resolve.collect_requirements Resolve.collect_dependencies
    Resolve.collect_dependency Resolve.get Resolve.put Resolve.sort_modules Resolve.insert_module
    Version.max_version compare_versions Version.parse_version Version.split_dots
    Version.leading_number
chooses = refl

resolve-AllMet_example :
    AllMet chosen root.dependencies
    × ((p v : Text)
        → get p chosen ≡ some v
        → ManifestMet provider chosen (record { path = p; version = v }))
resolve-AllMet_example = resolve-AllMet provider 4 root chosen chooses

abbrev asked : Dependency → ResolvedModule
asked dep = record { path = dep.path; version = dep.min_version }

none_found : {m : Manifest} {A : Type 0} → Path (Option Manifest) none (some m) → A
none_found h = cc

one_dependency :
    (m : Manifest)
    → Path (Option Manifest) (some (manifest 98 one (needs 97 one_ten ∷ []))) (some m)
    → AllWithin universe m.dependencies
one_dependency m e =
    subst (λ (x : Manifest). AllWithin universe x.dependencies) (some_inj e)
      (λ dep k. elim k [ inl q ↦ inr (inr (inl (ap asked q))) | inr l ↦ absurd l ])

universe-IsUniverse : IsUniverse provider universe
universe-IsUniverse u m (inl q) e =
    none_found (subst (λ (x : ResolvedModule). provider x.path x.version ≡ some m) q e)
universe-IsUniverse u m (inr (inl q)) e =
    one_dependency m (subst (λ (x : ResolvedModule). provider x.path x.version ≡ some m) q e)
universe-IsUniverse u m (inr (inr (inl q))) e =
    none_found (subst (λ (x : ResolvedModule). provider x.path x.version ≡ some m) q e)
universe-IsUniverse u m (inr (inr (inr q))) e = absurd q

resolve-ends_example :
    (ms : List ResolvedModule) × (resolve provider (suc (length universe)) root ≡ some ms)
resolve-ends_example = resolve-ends provider universe root universe-IsUniverse (λ dep k. elim k [
  | inl q ↦ inl (ap asked q)
  | inr (inl q) ↦ inr (inl (ap asked q))
  | inr (inr q) ↦ absurd q
])

-- 1 is needed of 97 by one module, 1.2 by another, and at 1 the module 97 needs the module 99: the
-- build list depends on the order.
abbrev providers : Provider
providers p v =
    if same_text p (97 ∷ []) && same_text v one
    then some (manifest 97 one (needs 99 one ∷ []))
    else none

abbrev ordered : Dependency → Dependency → Manifest
ordered a b = manifest 0 one (a ∷ b ∷ [])

low_first :
    resolve providers 3 (ordered (needs 97 one) (needs 97 one_two))
    ≡ some (entry 97 one_two ∷ entry 99 one ∷ [])
unfolding resolve Resolve.collect_requirements Resolve.collect_dependencies
    Resolve.collect_dependency Resolve.get Resolve.put Resolve.sort_modules Resolve.insert_module
    Version.max_version compare_versions Version.parse_version Version.split_dots
    Version.leading_number
low_first = refl

high_first :
    resolve providers 3 (ordered (needs 97 one_two) (needs 97 one)) ≡ some (entry 97 one_two ∷ [])
unfolding resolve Resolve.collect_requirements Resolve.collect_dependencies
    Resolve.collect_dependency Resolve.get Resolve.put Resolve.sort_modules Resolve.insert_module
    Version.max_version compare_versions Version.parse_version Version.split_dots
    Version.leading_number
high_first = refl
