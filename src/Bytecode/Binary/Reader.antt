-- ===== src/Bytecode/Binary/Reader.antt =====
-- The reads of deserialize_bytecode: a reader takes what is left of the data and gives a value with
-- what is then left, or raises. A read is exact on bytes that it takes whole, whatever follows them,
-- and of which no shorter start is enough.
use qy.Prelude.{append_assoc, ℕ, zero, suc, ◌≡◌, refl, ◌⊎◌, inl, inr, List, [], ◌∷◌, ◌++◌, length}

pub data Failure : Type 0 where
  truncated invalid_magic undecodable unpicklable : Failure
  unsupported_version : ℕ → Failure

pub data Read (A : Type 0) : Type 0 where
  got : A → List ℕ → Read A
  raised : Failure → Read A

abbrev pub Reader : Type 0 → Type 0
Reader A = List ℕ → Read A

abbrev pub and_then : {A B : Type 0} → Read A → (A → Reader B) → Read B
and_then (got a rest) k = k a rest
and_then (raised e) k = raised e

infixl 5 ◌>>=◌
abbrev pub ◌>>=◌ : {A B : Type 0} → Reader A → (A → Reader B) → Reader B
(r >>= k) data_left = and_then (r data_left) k

abbrev pub pure : {A : Type 0} → A → Reader A
pure a rest = got a rest

abbrev pub fail : {A : Type 0} → Failure → Reader A
fail e rest = raised e

abbrev more : ℕ → Read (List ℕ) → Read (List ℕ)
more x (got xs rest) = got (x ∷ xs) rest
more x (raised e) = raised e

-- read_bytes
unfoldable pub read_bytes : ℕ → Reader (List ℕ)
read_bytes zero data_left = got [] data_left
read_bytes (suc n) [] = raised truncated
read_bytes (suc n) (x ∷ xs) = more x (read_bytes n xs)

-- [read() for _ in range(n)]
unfoldable pub read_many : {A : Type 0} → ℕ → Reader A → Reader (List A)
read_many zero r = pure []
read_many (suc n) r = r >>= λ a. read_many n r >>= λ as'. pure (a ∷ as')

-- A start of the bytes that leaves at least one.
abbrev pub Starts : List ℕ → List ℕ → Type 0
Starts xs bs = (y : ℕ) × (ys : List ℕ) × (xs ++ (y ∷ ys) ≡ bs)

pub record Exact {A : Type 0} (r : Reader A) (bs : List ℕ) (a : A) : Type 0 where
  pub takes : (rest : List ℕ) → r (bs ++ rest) ≡ got a rest
  pub waits : (xs : List ℕ) → Starts xs bs → r xs ≡ raised truncated

cons_inj : {x y : ℕ} {xs ys : List ℕ} → x ∷ xs ≡ y ∷ ys → (x ≡ y) × (xs ≡ ys)
cons_inj h = (cc, cc)

no_start : (xs : List ℕ) → ¬ Starts xs []
no_start [] (y, ys, e) = cc
no_start (x ∷ xs) (y, ys, e) = cc

-- A start of two runs of bytes is a start of the first, or the first with a start of the second.
Starts-split :
    (xs bs cs : List ℕ)
    → Starts xs (bs ++ cs)
    → Starts xs bs ⊎ ((xs' : List ℕ) × (xs ≡ bs ++ xs') × Starts xs' cs)
Starts-split xs [] cs h = inr (xs, refl, h)
Starts-split [] (b ∷ bs) cs h = inl (b, bs, refl)
Starts-split (x ∷ xs) (b ∷ bs) cs (y, ys, e) =
    let (p, q) = cons_inj e in
    elim (Starts-split xs bs cs (y, ys, q)) [
      | inl (z, zs, r) ↦ inl (z, zs, rw (p, r) refl)
      | inr (xs', r, s) ↦ inr (xs', rw (p, r) refl, s)
    ]

pub pure-Exact : {A : Type 0} (a : A) → Exact (pure a) [] a
pure-Exact a = record { takes = λ rest. refl; waits = λ xs h. absurd (no_start xs h) }

pub bind-Exact :
    {A B : Type 0} (r : Reader A) (k : A → Reader B) (bs cs : List ℕ) (a : A) (b : B)
    → Exact r bs a
    → Exact (k a) cs b
    → Exact (r >>= k) (bs ++ cs) b
bind-Exact r k bs cs a b p q = record {
  takes = λ rest. rw (append_assoc bs cs rest) (rw (p.takes (cs ++ rest)) (q.takes rest));
  waits = λ xs h. elim (Starts-split xs bs cs h) [
    | inl s ↦ rw (p.waits xs s) refl
    | inr (xs', e, s) ↦ rw e (rw (p.takes xs') (q.waits xs' s))
  ];
}

bytes_taken : (bs rest : List ℕ) → read_bytes (length bs) (bs ++ rest) ≡ got bs rest
unfolding read_bytes
bytes_taken [] rest = refl
bytes_taken (b ∷ bs) rest = rw (bytes_taken bs rest) refl

bytes_awaited : (bs xs : List ℕ) → Starts xs bs → read_bytes (length bs) xs ≡ raised truncated
unfolding read_bytes
bytes_awaited [] xs h = absurd (no_start xs h)
bytes_awaited (b ∷ bs) [] h = refl
bytes_awaited (b ∷ bs) (x ∷ xs) (y, ys, e) = rw (bytes_awaited bs xs (y, ys, (cons_inj e).1)) refl

pub read_bytes-Exact : (bs : List ℕ) → Exact (read_bytes (length bs)) bs bs
read_bytes-Exact bs = record { takes = bytes_taken bs; waits = bytes_awaited bs }
