-- ===== src/Project/Closed.antt =====
-- The selection meets the requirements of the root and of every module that it selects.
use qy.Prelude.{
  ℕ, zero, suc, ◌≡◌, refl, sym, ap, subst, ◌∙◌, ◌⊎◌, inl, inr, true, Option, none, some, List, [],
  ◌∷◌, Bool-cases, Option-cases, true≢false, >>=-eq-some, arith,
}
use qy.Prelude.Members.{In, some_inj}
use qy.Project.Version.{Text, Meets, Meets-refl, Meets-trans, max_version-Meets}
use qy.Project.Resolve.{
  Dependency, Manifest, ResolvedModule, same_text, same_module, State, get, put, is_visited, select,
  selected, key_of, require, visit, Provider, collect_dependency, collect_dependencies,
  collect_requirements, sort_modules, build_list, resolve,
}
use qy.Project.Requirements.{
  same_text-eq, same_module-eq, visited_self, get-put_same, get-put_other, get-sort_modules,
}

-- The selected version of the path meets the minimum.
abbrev pub MeetsIn : List ResolvedModule → Dependency → Type 0
MeetsIn ms dep = (v : Text) × (get dep.path ms ≡ some v) × Meets v dep.min_version

abbrev pub AllMet : List ResolvedModule → List Dependency → Type 0
AllMet ms deps = (dep : Dependency) → In dep deps → MeetsIn ms dep

-- Versions only rise.
abbrev Rises : List ResolvedModule → List ResolvedModule → Type 0
Rises ms ms' = (p v : Text) → get p ms ≡ some v → (v' : Text) × (get p ms' ≡ some v') × Meets v' v

Rises-trans : (a b c : List ResolvedModule) → Rises a b → Rises b c → Rises a c
Rises-trans a b c f g p v e =
    let (v', e', m) = f p v e in
    let (v'', e'', m') = g p v' e' in (v'', e'', Meets-trans v'' v' v m' m)

AllMet-Rises :
    (ms ms' : List ResolvedModule) (deps : List Dependency)
    → Rises ms ms'
    → AllMet ms deps
    → AllMet ms' deps
AllMet-Rises ms ms' deps r all dep k =
    let (v, e, m) = all dep k in
    let (v', e', m') = r dep.path v e in (v', e', Meets-trans v' v dep.min_version m' m)

abbrev Visited : ResolvedModule → State → Type 0
Visited key s = is_visited key s.visited ≡ true

-- Every selected module has been visited.
abbrev Settled : State → Type 0
Settled s =
    (p v : Text) → get p s.requirements ≡ some v → Visited (record { path = p; version = v }) s

select-Meets : (o : Option Text) (m v : Text) → o ≡ some v → Meets (select o m) v
select-Meets none m v e = cc
select-Meets (some c) m v e =
    subst (Meets (select (some c) m)) (some_inj e) (max_version-Meets c m).1

select-minimum : (o : Option Text) (m : Text) → Meets (select o m) m
select-minimum none m = Meets-refl m
select-minimum (some c) m = (max_version-Meets c m).2

require-Rises :
    (dep : Dependency) (s : State)
    → Rises s.requirements (put dep.path (selected dep s) s.requirements)
require-Rises dep s p v e = elim (Bool-cases (same_text p dep.path)) [
  | inl q ↦
      let z = same_text-eq p dep.path q in
      rw z (
        selected dep s,
        get-put_same dep.path (selected dep s) s.requirements,
        select-Meets (get dep.path s.requirements) dep.min_version v (rw z at e),
      )
  | inr q ↦ (v, get-put_other dep.path p (selected dep s) s.requirements q ∙ e, Meets-refl v)
]

require-Settled :
    (dep : Dependency) (s : State) (visited : List ResolvedModule)
    → is_visited (key_of dep s) visited ≡ true
    → ((key : ResolvedModule) → Visited key s → is_visited key visited ≡ true)
    → Settled s
    → Settled
        (record { requirements = put dep.path (selected dep s) s.requirements; visited = visited })
require-Settled dep s visited k keeps h p v e = elim (Bool-cases (same_text p dep.path)) [
  | inl q ↦
      let z = same_text-eq p dep.path q in
      let w = sym (get-put_same dep.path (selected dep s) s.requirements) ∙ (rw z at e) in
      rw (z, ← some_inj w) k
  | inr q ↦
      keeps (record { path = p; version = v })
        (h p v (sym (get-put_other dep.path p (selected dep s) s.requirements q) ∙ e))
]

none≢some : {A : Type 0} {a : A} → ¬ (none ≡ some a)
none≢some h = cc

module _ (get_manifest : Provider) where
  -- What the manifest of the module requires is met.
  abbrev pub ManifestMet : List ResolvedModule → ResolvedModule → Type 0
  ManifestMet ms key =
      (m : Manifest) → get_manifest key.path key.version ≡ some m → AllMet ms m.dependencies

  -- A stretch of the collection: it raises versions, visits modules, and meets what the modules that
  -- it visits require.
  record Progress (s s' : State) : Type 0 where
    rises : Rises s.requirements s'.requirements
    keeps : (key : ResolvedModule) → Visited key s → Visited key s'
    settles : Settled s → Settled s'
    meets :
        (key : ResolvedModule) → Visited key s' → Visited key s ⊎ ManifestMet s'.requirements key

  Progress-refl : (s : State) → Progress s s
  Progress-refl s = record {
    rises = λ p v e. (v, e, Meets-refl v);
    keeps = λ key k. k;
    settles = λ h. h;
    meets = λ key k. inl k;
  }

  Progress-trans : (s s' s'' : State) → Progress s s' → Progress s' s'' → Progress s s''
  Progress-trans s s' s'' a b = record {
    rises = Rises-trans s.requirements s'.requirements s''.requirements a.rises b.rises;
    keeps = λ key k. b.keeps key (a.keeps key k);
    settles = λ h. b.settles (a.settles h);
    meets = λ key k. elim (b.meets key k) [
      | inr m ↦ inr m
      | inl n ↦ elim (a.meets key n) [
        | inl l ↦ inl l
        | inr m ↦
            inr
              (λ x e. AllMet-Rises s'.requirements s''.requirements x.dependencies b.rises (m x e))
      ]
    ];
  }

  require-Progress :
      (dep : Dependency) (s : State) → Visited (key_of dep s) s → Progress s (require dep s)
  require-Progress dep s k = record {
    rises = require-Rises dep s;
    keeps = λ key l. l;
    settles = require-Settled dep s s.visited k (λ key l. l);
    meets = λ key l. inl l;
  }

  pub more_visited :
      (key a : ResolvedModule) (ms : List ResolvedModule)
      → is_visited key ms ≡ true
      → is_visited key (a ∷ ms) ≡ true
  more_visited key a ms h = ground (arith, h)

  pub visited-cases :
      (key a : ResolvedModule) (ms : List ResolvedModule)
      → is_visited key (a ∷ ms) ≡ true
      → (key ≡ a) ⊎ (is_visited key ms ≡ true)
  visited-cases key a ms h = elim (Bool-cases (same_module key a)) [
    | inl e ↦ inl (same_module-eq key a e)
    | inr e ↦ inr (rw e at h)
  ]

  visit-Progress :
      (dep : Dependency) (s s' : State)
      → Progress (visit dep s) s'
      → ManifestMet s'.requirements (key_of dep s)
      → Progress s s'
  visit-Progress dep s s' a met = record {
    rises =
        Rises-trans s.requirements (visit dep s).requirements s'.requirements (require-Rises dep s)
          a.rises;
    keeps = λ key k. a.keeps key (more_visited key (key_of dep s) s.visited k);
    settles = λ h. a.settles (
        require-Settled dep s (key_of dep s ∷ s.visited) (visited_self (key_of dep s) s.visited)
          (λ key k. more_visited key (key_of dep s) s.visited k) h);
    meets = λ key k. elim (a.meets key k) [
      | inr m ↦ inr m
      | inl n ↦ elim (visited-cases key (key_of dep s) s.visited n) [
        | inl e ↦ inr (subst (λ (x : ResolvedModule). ManifestMet s'.requirements x) (sym e) met)
        | inr l ↦ inl l
      ]
    ];
  }

  -- What a call of the collection does.
  abbrev Collects : (List Dependency → State → Option State) → Type 0
  Collects collect =
      (deps : List Dependency) (s s' : State)
      → collect deps s ≡ some s'
      → Progress s s' × AllMet s'.requirements deps

  dependency-met :
      (dep : Dependency) (s s' : State)
      → Rises (put dep.path (selected dep s) s.requirements) s'.requirements
      → MeetsIn s'.requirements dep
  dependency-met dep s s' r =
      let (v, e, m) =
        r dep.path (selected dep s) (get-put_same dep.path (selected dep s) s.requirements) in
      (
        v,
        e,
        Meets-trans v (selected dep s) dep.min_version m
            (select-minimum (get dep.path s.requirements) dep.min_version),
      )

  collect_dependency-Progress :
      (collect : List Dependency → State → Option State) (dep : Dependency) (s s' : State)
      → Collects collect
      → collect_dependency get_manifest collect dep s ≡ some s'
      → Progress s s' × MeetsIn s'.requirements dep
  unfolding collect_dependency
  collect_dependency-Progress collect dep s s' c h =
      elim (Bool-cases (is_visited (key_of dep s) s.visited)) [
        | inl e ↦
            let q = some_inj (rw e at h) in
            subst (λ (x : State). Progress s x × MeetsIn x.requirements dep) q
              (
                require-Progress dep s e,
                dependency-met dep s (require dep s) (Progress-refl (require dep s)).rises,
              )
        | inr e ↦ elim (Option-cases (get_manifest dep.path (selected dep s))) [
          | inl n ↦
              let q = some_inj (rw (e, n) at h) in
              subst (λ (x : State). Progress s x × MeetsIn x.requirements dep) q
                (
                  visit-Progress dep s (visit dep s) (Progress-refl (visit dep s))
                      (λ x k. absurd (none≢some (sym n ∙ k))),
                  dependency-met dep s (visit dep s) (Progress-refl (visit dep s)).rises,
                )
          | inr (m, n) ↦
              let (a, met) = c m.dependencies (visit dep s) s' (rw (e, n) at h) in
              (
                visit-Progress dep s s' a (λ x k.
                    subst (λ (y : Manifest). AllMet s'.requirements y.dependencies)
                      (some_inj (sym n ∙ k)) met),
                dependency-met dep s s' a.rises,
              )
        ]
      ]

  collect_dependencies-Progress :
      (collect : List Dependency → State → Option State)
      → Collects collect
      → Collects (collect_dependencies get_manifest collect)
  unfolding collect_dependencies
  collect_dependencies-Progress collect c [] s s' h =
      (subst (Progress s) (some_inj h) (Progress-refl s), λ dep k. absurd k)
  collect_dependencies-Progress collect c (dep ∷ deps) s s' h =
      let (t, e, h') = >>=-eq-some (collect_dependency get_manifest collect dep s) _ h in
      let (a, met) = collect_dependency-Progress collect dep s t c e in
      let (b, all) = collect_dependencies-Progress collect c deps t s' h' in
      (
        Progress-trans s t s' a b,
        λ x k. elim k [
          | inl q ↦
              AllMet-Rises t.requirements s'.requirements (dep ∷ []) b.rises
                (λ y l. elim l [ inl z ↦ rw z met | inr l' ↦ absurd l' ]) x (inl q)
          | inr l ↦ all x l
        ],
      )

  collect_requirements-Progress : (fuel : ℕ) → Collects (collect_requirements get_manifest fuel)
  unfolding collect_requirements
  collect_requirements-Progress zero deps s s' h = cc
  collect_requirements-Progress (suc fuel) deps s s' h =
      collect_dependencies-Progress (collect_requirements get_manifest fuel)
        (collect_requirements-Progress fuel) deps s s' h

  build-inv :
      (o : Option State) (ms : List ResolvedModule)
      → build_list get_manifest o ≡ some ms
      → (s : State) × (o ≡ some s) × (ms ≡ sort_modules s.requirements)
  build-inv none ms h = cc
  build-inv (some s) ms h = (s, refl, sym (some_inj h))

  start_met :
      (s : State)
      → Progress (record { requirements = []; visited = [] }) s
      → (p v : Text) → get p s.requirements ≡ some v
      → ManifestMet s.requirements (record { path = p; version = v })
  unfolding get
  start_met s a p v k =
      elim (a.meets (record { path = p; version = v }) (a.settles (λ q w e. cc) p v k)) [
        | inl n ↦ absurd (true≢false (sym n))
        | inr m ↦ m
      ]

  -- Every build list meets what the root requires and, for each module that it holds, what the
  -- manifest of that module at its selected version requires, where the provider has one.
  pub resolve-AllMet :
      (fuel : ℕ) (root : Manifest) (ms : List ResolvedModule)
      → resolve get_manifest fuel root ≡ some ms
      → AllMet ms root.dependencies
        × ((p v : Text) → get p ms ≡ some v → ManifestMet ms (record { path = p; version = v }))
  unfolding resolve
  resolve-AllMet fuel root ms h =
      let start : State = record { requirements = []; visited = [] } in
      let (s, e, q) =
        build-inv (collect_requirements get_manifest fuel root.dependencies start) ms h in
      let (a, met) = collect_requirements-Progress fuel root.dependencies start s e in
      let sorted : Rises s.requirements ms =
        λ p v k. (v, ap (get p) q ∙ (get-sort_modules p s.requirements ∙ k), Meets-refl v) in
      (
        AllMet-Rises s.requirements ms root.dependencies sorted met,
        λ p v k m l.
            AllMet-Rises s.requirements ms m.dependencies sorted
              (start_met s a p v (sym (ap (get p) q ∙ get-sort_modules p s.requirements) ∙ k) m l),
      )
