-- ===== src/Project/Resolve.antt =====
-- qy/project/resolve.py: _collect_requirements, resolve and BuildList. The provider of manifests is a
-- parameter; LocalManifestProvider is one.
use qy.Prelude.{
  ℕ, zero, suc, Bool, true, false, ◌&&◌, ◌||◌, Option, none, some, List, [], ◌∷◌, ltb, ◌==◌,
  if◌then◌else◌, ◌>>=◌,
}
use qy.Project.Version.{Text, max_version}

pub record Dependency : Type 0 where
  pub path : Text
  pub min_version : Text

pub record Manifest : Type 0 where
  pub pkg_path : Text
  pub version : Text
  pub dependencies : List Dependency

-- ResolvedModule, which is also a key of `visited`.
pub record ResolvedModule : Type 0 where
  pub path : Text
  pub version : Text

abbrev pub same_text : Text → Text → Bool
same_text [] [] = true
same_text (x ∷ xs) (y ∷ ys) = x == y && same_text xs ys
same_text _ _ = false

abbrev pub same_module : ResolvedModule → ResolvedModule → Bool
same_module a b = same_text a.path b.path && same_text a.version b.version

-- `requirements` in the order of insertion, and `visited`.
pub record State : Type 0 where
  pub requirements : List ResolvedModule
  pub visited : List ResolvedModule

-- BuildList.get, and requirements.get: the version of the path.
unfoldable pub get : Text → List ResolvedModule → Option Text
get path [] = none
get path (m ∷ ms) = if same_text path m.path then some m.version else get path ms

-- requirements[path] = version
unfoldable pub put : Text → Text → List ResolvedModule → List ResolvedModule
put path version [] = record { path = path; version = version } ∷ []
put path version (m ∷ ms) =
    if same_text path m.path
    then record { path = path; version = version } ∷ ms
    else m ∷ put path version ms

abbrev pub is_visited : ResolvedModule → List ResolvedModule → Bool
is_visited key [] = false
is_visited key (m ∷ ms) = same_module key m || is_visited key ms

-- `dep.min_version if current is None else max_version(current, dep.min_version)`
abbrev pub select : Option Text → Text → Text
select none minimum = minimum
select (some current) minimum = max_version current minimum

abbrev pub selected : Dependency → State → Text
selected dep s = select (get dep.path s.requirements) dep.min_version

abbrev pub key_of : Dependency → State → ResolvedModule
key_of dep s = record { path = dep.path; version = selected dep s }

abbrev pub require : Dependency → State → State
require dep s = record s { requirements = put dep.path (selected dep s) s.requirements }

abbrev pub visit : Dependency → State → State
visit dep s = record {
  requirements = put dep.path (selected dep s) s.requirements;
  visited = key_of dep s ∷ s.visited;
}

abbrev pub Provider : Type 0
Provider = Text → Text → Option Manifest

abbrev pub text_lt : Text → Text → Bool
text_lt [] [] = false
text_lt [] (y ∷ ys) = true
text_lt (x ∷ xs) [] = false
text_lt (x ∷ xs) (y ∷ ys) = if ltb x y then true else if x == y then text_lt xs ys else false

-- sorted(requirements.items()): the paths are different from one another.
unfoldable pub insert_module : ResolvedModule → List ResolvedModule → List ResolvedModule
insert_module m [] = m ∷ []
insert_module m (n ∷ ns) = if text_lt n.path m.path then n ∷ insert_module m ns else m ∷ n ∷ ns

unfoldable pub sort_modules : List ResolvedModule → List ResolvedModule
sort_modules [] = []
sort_modules (m ∷ ms) = insert_module m (sort_modules ms)

-- LocalManifestProvider, whose dictionary holds the manifests that have been registered; a later
-- one with the same path and version takes the place of an earlier one, and stands first here.
unfoldable pub local_provider : List Manifest → Provider
local_provider [] path version = none
local_provider (m ∷ ms) path version =
    if same_text m.pkg_path path && same_text m.version version
    then some m
    else local_provider ms path version

module _ (get_manifest : Provider) where
  abbrev pub collect_manifest :
      (List Dependency → State → Option State) → State → Option Manifest → Option State
  collect_manifest collect s none = some s
  collect_manifest collect s (some m) = collect m.dependencies s

  -- One turn of the loop, with the recursive call.
  unfoldable pub collect_dependency :
      (List Dependency → State → Option State) → Dependency → State → Option State
  collect_dependency collect dep s =
      if is_visited (key_of dep s) s.visited
      then some (require dep s)
      else collect_manifest collect (visit dep s) (get_manifest dep.path (selected dep s))

  unfoldable pub collect_dependencies :
      (List Dependency → State → Option State) → List Dependency → State → Option State
  collect_dependencies collect [] s = some s
  collect_dependencies collect (dep ∷ deps) s =
      collect_dependency collect dep s >>= collect_dependencies collect deps

  -- _collect_requirements. A unit of fuel for each call that is open.
  unfoldable pub collect_requirements : ℕ → List Dependency → State → Option State
  collect_requirements zero deps s = none
  collect_requirements (suc fuel) deps s = collect_dependencies (collect_requirements fuel) deps s

  abbrev pub build_list : Option State → Option (List ResolvedModule)
  build_list none = none
  build_list (some s) = some (sort_modules s.requirements)

  unfoldable pub resolve : ℕ → Manifest → Option (List ResolvedModule)
  resolve fuel root =
      build_list
        (collect_requirements fuel root.dependencies (record { requirements = []; visited = [] }))
