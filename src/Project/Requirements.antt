-- ===== src/Project/Requirements.antt =====
-- Laws of the requirements and of the visited modules.
use qy.Prelude.{
  ◌≡◌, refl, sym, ap, subst, ◌∙◌, inl, inr, true, false, some, List, [], ◌∷◌, ◌==◌, arith,
  Bool-cases, true≢false, ==_iff,
}
use qy.Project.Version.{Text}
use qy.Project.Resolve.{
  ResolvedModule, same_text, same_module, get, put, is_visited, text_lt, insert_module,
  sort_modules,
}

pub same_text-eq : (a b : Text) → same_text a b ≡ true → a ≡ b
same_text-eq [] [] h = refl
same_text-eq [] (y ∷ ys) h = cc
same_text-eq (x ∷ xs) [] h = cc
same_text-eq (x ∷ xs) (y ∷ ys) h = elim (Bool-cases (x == y)) [
  | inl e ↦ rw ((==_iff x y).0 e, same_text-eq xs ys (rw e at h)) refl
  | inr e ↦ absurd (true≢false (sym (rw e at h)))
]

pub same_text-same : (a : Text) → same_text a a ≡ true
same_text-same [] = refl
same_text-same (x ∷ xs) = ground (arith, same_text-same xs)

pub same_module-eq : (a b : ResolvedModule) → same_module a b ≡ true → a ≡ b
same_module-eq a b h = elim (Bool-cases (same_text a.path b.path)) [
  | inr e ↦ absurd (true≢false (sym (rw e at h)))
  | inl e ↦
      let p = same_text-eq a.path b.path e in
      let q = same_text-eq a.version b.version (rw e at h) in
      ap (λ (x : Text). record { path = x; version = a.version }) p
      ∙ ap (λ (x : Text). record { path = b.path; version = x }) q
]

pub visited_self : (a : ResolvedModule) (ms : List ResolvedModule) → is_visited a (a ∷ ms) ≡ true
visited_self a ms = rw (same_text-same a.path, same_text-same a.version) refl

get-head :
    (p : Text) (m : ResolvedModule) (ms : List ResolvedModule)
    → same_text p m.path ≡ true
    → get p (m ∷ ms) ≡ some m.version
unfolding get
get-head p m ms h = rw h refl

get-tail :
    (p : Text) (m : ResolvedModule) (ms : List ResolvedModule)
    → same_text p m.path ≡ false
    → get p (m ∷ ms) ≡ get p ms
unfolding get
get-tail p m ms h = rw h refl

pub get-put_same : (p v : Text) (ms : List ResolvedModule) → get p (put p v ms) ≡ some v
unfolding put
get-put_same p v [] = get-head p (record { path = p; version = v }) [] (same_text-same p)
get-put_same p v (m ∷ ms) = elim (Bool-cases (same_text p m.path)) [
  | inl e ↦ rw e (get-head p (record { path = p; version = v }) ms (same_text-same p))
  | inr e ↦ rw e (get-tail p m (put p v ms) e ∙ get-put_same p v ms)
]

pub get-put_other :
    (p q v : Text) (ms : List ResolvedModule)
    → same_text q p ≡ false
    → get q (put p v ms) ≡ get q ms
unfolding put
get-put_other p q v [] h = get-tail q (record { path = p; version = v }) [] h
get-put_other p q v (m ∷ ms) h = elim (Bool-cases (same_text p m.path)) [
  | inl e ↦
      let d = subst (λ (x : Text). same_text q x ≡ false) (same_text-eq p m.path e) h in
      rw e (get-tail q (record { path = p; version = v }) ms h ∙ sym (get-tail q m ms d))
  | inr e ↦ elim (Bool-cases (same_text q m.path)) [
    | inl f ↦ rw e (get-head q m (put p v ms) f ∙ sym (get-head q m ms f))
    | inr f ↦
        rw e (get-tail q m (put p v ms) f ∙ (get-put_other p q v ms h ∙ sym (get-tail q m ms f)))
  ]
]

text_lt-same : (a : Text) → text_lt a a ≡ false
text_lt-same [] = refl
text_lt-same (x ∷ xs) = ground (arith, text_lt-same xs)

apart :
    (p : Text) (m n : ResolvedModule)
    → text_lt n.path m.path ≡ true
    → same_text p n.path ≡ true
    → same_text p m.path ≡ false
apart p m n e f = elim (Bool-cases (same_text p m.path)) [
  | inr g ↦ g
  | inl g ↦
      let q = sym (same_text-eq p n.path f) ∙ same_text-eq p m.path g in
      absurd
        (true≢false (sym (subst (λ (x : Text). text_lt x m.path ≡ true) q e) ∙ text_lt-same m.path))
]

get-swap :
    (p : Text) (m n : ResolvedModule) (ms : List ResolvedModule)
    → same_text p n.path ≡ false
    → get p (m ∷ ms) ≡ get p (m ∷ n ∷ ms)
get-swap p m n ms f = elim (Bool-cases (same_text p m.path)) [
  | inl e ↦ get-head p m ms e ∙ sym (get-head p m (n ∷ ms) e)
  | inr e ↦ get-tail p m ms e ∙ sym (get-tail p m (n ∷ ms) e ∙ get-tail p n ms f)
]

get-insert_module :
    (p : Text) (m : ResolvedModule) (ms : List ResolvedModule)
    → get p (insert_module m ms) ≡ get p (m ∷ ms)
unfolding insert_module
get-insert_module p m [] = refl
get-insert_module p m (n ∷ ms) = elim (Bool-cases (text_lt n.path m.path)) [
  | inr e ↦ rw e refl
  | inl e ↦ rw e (elim (Bool-cases (same_text p n.path)) [
    | inl f ↦
        get-head p n (insert_module m ms) f
        ∙ sym (get-tail p m (n ∷ ms) (apart p m n e f) ∙ get-head p n ms f)
    | inr f ↦ get-tail p n (insert_module m ms) f ∙ (get-insert_module p m ms ∙ get-swap p m n ms f)
  ])
]

-- Sorting by paths keeps the version of each path.
pub get-sort_modules : (p : Text) (ms : List ResolvedModule) → get p (sort_modules ms) ≡ get p ms
unfolding sort_modules
get-sort_modules p [] = refl
get-sort_modules p (m ∷ ms) =
    get-insert_module p m (sort_modules ms) ∙ elim (Bool-cases (same_text p m.path)) [
      | inl e ↦ get-head p m (sort_modules ms) e ∙ sym (get-head p m ms e)
      | inr e ↦ get-tail p m (sort_modules ms) e ∙ (get-sort_modules p ms ∙ sym (get-tail p m ms e))
    ]
