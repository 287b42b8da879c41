-- ===== src/Project/Ends.antt =====
-- Where finitely many modules can be demanded, the collection ends.
use qy.Prelude.{
  ℕ, zero, suc, ◌≤◌, ◌<◌, ◌≡◌, refl, sym, subst, ◌∙◌, inl, inr, true, false, Option, none, some,
  List, [], ◌∷◌, length, Bool-cases, arith, if◌then◌else◌,
}
use qy.Prelude.Members.{In, some_inj}
use qy.Project.Version.{Text, max_version-Meets}
use qy.Project.Resolve.{
  Dependency, Manifest, ResolvedModule, same_text, State, get, put, is_visited, select, selected,
  key_of, require, visit, Provider, collect_manifest, collect_dependency, collect_dependencies,
  collect_requirements, sort_modules, resolve,
}
use qy.Project.Requirements.{same_text-eq, visited_self, get-put_same, get-put_other}

-- How many modules of the universe are not visited.
unfoldable unvisited : List ResolvedModule → List ResolvedModule → ℕ
unvisited [] ms = 0
unvisited (u ∷ us) ms = let rest = unvisited us ms in if is_visited u ms then rest else suc rest

unvisited-le :
    (us : List ResolvedModule) (a : ResolvedModule) (ms : List ResolvedModule)
    → unvisited us (a ∷ ms) ≤ unvisited us ms
unfolding unvisited
unvisited-le [] a ms = omega arith
unvisited-le (u ∷ us) a ms = ground (arith, unvisited-le us a ms)

seen_more :
    (u a : ResolvedModule) (ms : List ResolvedModule)
    → is_visited u ms ≡ true
    → is_visited u (a ∷ ms) ≡ true
seen_more u a ms h = ground (arith, h)

unvisited-known :
    (u : ResolvedModule) (us ms : List ResolvedModule)
    → is_visited u ms ≡ true
    → unvisited (u ∷ us) ms ≡ unvisited us ms
unfolding unvisited
unvisited-known u us ms h = rw h refl

unvisited-new :
    (u : ResolvedModule) (us ms : List ResolvedModule)
    → is_visited u ms ≡ false
    → unvisited (u ∷ us) ms ≡ suc (unvisited us ms)
unfolding unvisited
unvisited-new u us ms h = rw h refl

unvisited-lt :
    (us : List ResolvedModule) (a : ResolvedModule) (ms : List ResolvedModule)
    → In a us
    → is_visited a ms ≡ false
    → unvisited us (a ∷ ms) < unvisited us ms
unvisited-lt [] a ms k h = absurd k
unvisited-lt (u ∷ us) a ms (inl q) h =
    subst (λ (x : ResolvedModule). unvisited (x ∷ us) (a ∷ ms) < unvisited (x ∷ us) ms) q
      (rw (unvisited-known a us (a ∷ ms) (visited_self a ms), unvisited-new a us ms h)
        (omega (arith, unvisited-le us a ms)))
unvisited-lt (u ∷ us) a ms (inr k) h = elim (Bool-cases (is_visited u ms)) [
  | inl e ↦
      rw (unvisited-known u us (a ∷ ms) (seen_more u a ms e), unvisited-known u us ms e)
        (unvisited-lt us a ms k h)
  | inr e ↦ rw (unvisited-new u us ms e) (elim (Bool-cases (is_visited u (a ∷ ms))) [
    | inl f ↦ rw (unvisited-known u us (a ∷ ms) f) (omega (arith, unvisited-lt us a ms k h))
    | inr f ↦ rw (unvisited-new u us (a ∷ ms) f) (omega (arith, unvisited-lt us a ms k h))
  ])
]

unvisited-bound : (us ms : List ResolvedModule) → unvisited us ms ≤ length us
unfolding unvisited
unvisited-bound [] ms = omega arith
unvisited-bound (u ∷ us) ms = ground (arith, unvisited-bound us ms)

abbrev minimum_of : Dependency → ResolvedModule
minimum_of dep = record { path = dep.path; version = dep.min_version }

-- Every dependency asks for a module of the universe.
abbrev pub AllWithin : List ResolvedModule → List Dependency → Type 0
AllWithin us deps =
    (dep : Dependency) → In dep deps → In (record { path = dep.path; version = dep.min_version }) us

module _ (get_manifest : Provider) (us : List ResolvedModule) where
  -- And so do the manifests of the modules of the universe.
  abbrev pub IsUniverse : Type 0
  IsUniverse =
      (u : ResolvedModule) (m : Manifest)
      → In u us
      → get_manifest u.path u.version ≡ some m
      → AllWithin us m.dependencies

  abbrev Inside : State → Type 0
  Inside s = (p v : Text) → get p s.requirements ≡ some v → In (record { path = p; version = v }) us

  select-Inside :
      (p m : Text) (o : Option Text)
      → ((v : Text) → o ≡ some v → In (record { path = p; version = v }) us)
      → In (record { path = p; version = m }) us
      → In (record { path = p; version = select o m }) us
  select-Inside p m none h k = k
  select-Inside p m (some c) h k = elim (max_version-Meets c m).0 [
    | inl e ↦ rw e (h c refl)
    | inr e ↦ rw e k
  ]

  put-Inside :
      (dep : Dependency) (s : State) (visited : List ResolvedModule)
      → Inside s
      → In (key_of dep s) us
      → Inside (record {
        requirements = put dep.path (selected dep s) s.requirements;
        visited = visited;
      })
  put-Inside dep s visited h k p v e = elim (Bool-cases (same_text p dep.path)) [
    | inl q ↦
        let z = same_text-eq p dep.path q in
        let w = sym (get-put_same dep.path (selected dep s) s.requirements) ∙ (rw z at e) in
        rw (z, ← some_inj w) k
    | inr q ↦ h p v (sym (get-put_other dep.path p (selected dep s) s.requirements q) ∙ e)
  ]

  -- A call with dependencies of the universe ends, if the fuel covers the modules not visited.
  abbrev Ends : ℕ → (List Dependency → State → Option State) → Type 0
  Ends n collect =
      (deps : List Dependency) (s : State)
      → AllWithin us deps
      → Inside s
      → unvisited us s.visited < n
      → (s' : State) × (collect deps s ≡ some s')
        × Inside s'
        × (unvisited us s'.visited ≤ unvisited us s.visited)

  abbrev Ended : ℕ → Option State → Type 0
  Ended n o = (s' : State) × (o ≡ some s') × Inside s' × (unvisited us s'.visited ≤ n)

  manifest-Ends :
      (n : ℕ) (collect : List Dependency → State → Option State) (s : State) (o : Option Manifest)
      → ((m : Manifest) → o ≡ some m → AllWithin us m.dependencies)
      → Ends n collect
      → Inside s
      → unvisited us s.visited < n
      → Ended (unvisited us s.visited) (collect_manifest get_manifest collect s o)
  manifest-Ends n collect s none w c h k = (s, refl, h, omega arith)
  manifest-Ends n collect s (some m) w c h k = c m.dependencies s (w m refl) h k

  dependency-Ends :
      (n : ℕ) (collect : List Dependency → State → Option State) (dep : Dependency) (s : State)
      → IsUniverse
      → Ends n collect
      → In (record { path = dep.path; version = dep.min_version }) us
      → Inside s
      → unvisited us s.visited < suc n
      → Ended (unvisited us s.visited) (collect_dependency get_manifest collect dep s)
  unfolding collect_dependency
  dependency-Ends n collect dep s u c k h lt =
      let key =
        select-Inside dep.path dep.min_version (get dep.path s.requirements) (λ v e. h dep.path v e)
          k in
      elim (Bool-cases (is_visited (key_of dep s) s.visited)) [
        | inl e ↦ rw e (require dep s, refl, put-Inside dep s s.visited h key, omega arith)
        | inr e ↦
            let down = unvisited-lt us (key_of dep s) s.visited key e in
            let (s', q, i, l) =
              manifest-Ends n collect (visit dep s) (get_manifest dep.path (selected dep s))
                (λ m g. u (key_of dep s) m key g) c
                (put-Inside dep s (key_of dep s ∷ s.visited) h key) (omega arith) in
            rw e (s', q, i, omega arith)
      ]

  dependencies-Ends :
      (n : ℕ) (collect : List Dependency → State → Option State)
      → IsUniverse
      → Ends n collect
      → Ends (suc n) (collect_dependencies get_manifest collect)
  unfolding collect_dependencies
  dependencies-Ends n collect u c [] s w h lt = (s, refl, h, omega arith)
  dependencies-Ends n collect u c (dep ∷ deps) s w h lt =
      let (t, e, i, l) = dependency-Ends n collect dep s u c (w dep (inl refl)) h lt in
      let (s', e', i', l') =
        dependencies-Ends n collect u c deps t (λ x k. w x (inr k)) i (omega arith) in
      (s', rw e e', i', omega arith)

  requirements-Ends : (n : ℕ) → IsUniverse → Ends n (collect_requirements get_manifest n)
  unfolding collect_requirements
  requirements-Ends zero u deps s w h lt = absurd (omega arith)
  requirements-Ends (suc n) u deps s w h lt =
      dependencies-Ends n (collect_requirements get_manifest n) u (requirements-Ends n u) deps s w h
        lt

  -- Where a finite list holds every module that the root or a manifest of the list asks for, resolve
  -- returns a build list with a unit of fuel for each module of the list, and one more.
  pub resolve-ends :
      (root : Manifest)
      → IsUniverse
      → AllWithin us root.dependencies
      → (ms : List ResolvedModule) × (resolve get_manifest (suc (length us)) root ≡ some ms)
  unfolding resolve get
  resolve-ends root u w =
      let start : State = record { requirements = []; visited = [] } in
      let (s, e, _, _) =
        requirements-Ends (suc (length us)) u root.dependencies start w (λ p v q. cc)
          (omega (arith, unvisited-bound us [])) in
      (sort_modules s.requirements, rw e refl)
