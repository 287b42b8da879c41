-- ===== src/Bytecode/Binary/Roundtrip.antt =====
-- What deserialize_bytecode makes of the output of serialize_bytecode.
use qy.Prelude.{
  append-nil, ℕ, suc, ◌≡◌, refl, sym, ap, Option, some, none, List, [], ◌∷◌, ◌++◌, length, map,
  >>=-eq-some, subst,
}
use qy.Prelude.Members.{some_inj}
use qy.Bytecode.Program.{Instruction, BytecodeFunction, Diagnostic, BytecodeProgram}
use qy.Bytecode.Binary.Words.{
  pack_uint32, uint32_bytes, unpack-uint32_bytes, pack_uint32-inv, unpack_uint32, unpack_uint16,
}
use qy.Bytecode.Binary.Reader.{
  Reader, ◌>>=◌, pure, read_bytes, read_many, Failure, raised, truncated, Exact, Starts, pure-Exact,
  bind-Exact, read_bytes-Exact, undecodable, unpicklable,
}
use qy.Bytecode.Binary.Write.{
  Encoder, magic, write_bytes, write_all, write_list, write_string, write_operand,
  write_instruction, write_function, write_diagnostic, serialize_bytecode,
}
use qy.Bytecode.Binary.Read.{
  Decoder, read_uint32, read_uint16, read_list, or_fail, read_coded, read_string, read_operand,
  read_instruction, read_function, read_diagnostic, read_body, check_version, check_magic,
  deserialize_bytecode,
}

-- A read by a function of the bytes, at the end of a run of reads.
last-Exact :
    {A B : Type 0} (r : Reader A) (g : A → B) (bs : List ℕ) (a : A)
    → Exact r bs a
    → Exact (r >>= λ x. pure (g x)) bs (g a)
last-Exact r g bs a p =
    subst (λ (l : List ℕ). Exact (r >>= λ x. pure (g x)) l (g a)) (append-nil bs)
      (bind-Exact r (λ x. pure (g x)) bs [] a (g a) p (pure-Exact (g a)))

read_uint32-Exact : (n : ℕ) (bs : List ℕ) → pack_uint32 n ≡ some bs → Exact read_uint32 bs n
unfolding read_uint32
read_uint32-Exact n bs h =
    subst (λ (l : List ℕ). Exact read_uint32 l n) (pack_uint32-inv n bs h)
      (subst (λ (m : ℕ). Exact read_uint32 (uint32_bytes n) m) (unpack-uint32_bytes n)
        (last-Exact (read_bytes 4) unpack_uint32 (uint32_bytes n) (uint32_bytes n)
          (read_bytes-Exact (uint32_bytes n))))

-- What a writer puts out for an item, its reader reads exactly, as the image of the item.
abbrev Pair : {A B : Type 0} → (A → Option (List ℕ)) → Reader B → (A → B) → Type 0
Pair {A} write read g = (a : A) (bs : List ℕ) → write a ≡ some bs → Exact read bs (g a)

module _ {A B : Type 0} (write : A → Option (List ℕ)) (read : Reader B) (g : A → B) where
  all-Exact :
      (items : List A) (bs : List ℕ)
      → Pair write read g
      → write_all write items ≡ some bs
      → Exact (read_many (length items) read) bs (map g items)
  unfolding write_all read_many
  all-Exact [] bs p h =
      subst (λ (l : List ℕ). Exact {A = List B} (pure []) l []) (some_inj h) (pure-Exact [])
  all-Exact (a ∷ items) bs p h =
      let (cs, e, h1) = >>=-eq-some (write a) _ h in
      let (ds, e', h2) = >>=-eq-some (write_all write items) _ h1 in
      subst (λ (l : List ℕ). Exact (read_many (suc (length items)) read) l (g a ∷ map g items))
        (some_inj h2)
        (bind-Exact read _ cs ds (g a) (g a ∷ map g items) (p a cs e) (
          last-Exact (read_many (length items) read) (λ xs. g a ∷ xs) ds (map g items)
            (all-Exact items ds p e')))

  list-Exact :
      (items : List A) (bs : List ℕ)
      → Pair write read g
      → write_list write items ≡ some bs
      → Exact (read_list read) bs (map g items)
  unfolding write_list read_list
  list-Exact items bs p h =
      let (cs, e, h1) = >>=-eq-some (pack_uint32 (length items)) _ h in
      let (ds, e', h2) = >>=-eq-some (write_all write items) _ h1 in
      subst (λ (l : List ℕ). Exact (read_list read) l (map g items)) (some_inj h2)
        (bind-Exact read_uint32 (λ n. read_many n read) cs ds (length items) (map g items)
          (read_uint32-Exact (length items) cs e) (all-Exact items ds p e'))

or_fail-Exact :
    {A : Type 0} (e : Failure) (o : Option A) (a : A) → o ≡ some a → Exact (or_fail e o) [] a
or_fail-Exact e o a h = subst (λ o'. Exact (or_fail e o') [] a) (sym h) (pure-Exact a)

module _ {Text Object : Type 0} (d : Decoder Text Object) where
  coded-Exact :
      {A : Type 0} (e : Failure) (decode : List ℕ → Option A) (code : List ℕ) (a : A) (bs : List ℕ)
      → decode code ≡ some a
      → write_bytes code ≡ some bs
      → Exact (read_coded d e decode) bs a
  unfolding write_bytes read_coded
  coded-Exact {A} e decode code a bs q h =
      let (cs, p, h1) = >>=-eq-some (pack_uint32 (length code)) _ h in
      subst (λ (l : List ℕ). Exact (read_coded d e decode) l a) (some_inj h1)
        (bind-Exact read_uint32 _ cs code (length code) a (read_uint32-Exact (length code) cs p) (
          subst
            (λ (l : List ℕ). Exact (read_bytes (length code) >>= λ xs. or_fail e (decode xs)) l a)
            (append-nil code)
            (bind-Exact (read_bytes (length code)) (λ xs. or_fail e (decode xs)) code [] code a
              (read_bytes-Exact code) (or_fail-Exact e (decode code) a q))))

-- UTF-8 and pickle give back what they encode.
pub record Laws {Text Object : Type 0} (e : Encoder Text Object) (d : Decoder Text Object)
    : Type 0 where
  pub decode-encode : (s : Text) → d.decode (e.encode s) ≡ some s
  pub loads-dumps : (o : Object) → d.loads (e.dumps o) ≡ some o

-- What the format keeps.
abbrev pub kept_instruction :
    {Text Object : Type 0} → Instruction Text Object → Instruction Text Object
kept_instruction i = record i { span = none }

abbrev pub kept_function :
    {Text Object : Type 0} → BytecodeFunction Text Object → BytecodeFunction Text Object
kept_function f = record f {
  instructions = map kept_instruction f.instructions;
  symbol_spaces = [];
  rest_param = none;
}

abbrev pub kept_diagnostic : {Text : Type 0} → Diagnostic Text → Diagnostic Text
kept_diagnostic x = record x { line = none; column = none; span = none }

abbrev pub kept : {Text Object : Type 0} → BytecodeProgram Text Object → BytecodeProgram Text Object
kept p = record p {
  functions = map kept_function p.functions;
  diagnostics = map kept_diagnostic p.diagnostics;
  symbol_spaces = [];
  hygiene_bindings = [];
  module_macro_exports = [];
}

map_id : {A : Type 0} (xs : List A) → map (λ x. x) xs ≡ xs
map_id [] = refl
map_id {A} (x ∷ xs) = ap (λ (l : List A). x ∷ l) (map_id xs)

module _ {Text Object : Type 0} (e : Encoder Text Object) (d : Decoder Text Object)
    (laws : Laws e d) where
  string-Exact : Pair (write_string e) (read_string d) (λ s. s)
  string-Exact s bs h =
      coded-Exact d undecodable d.decode (e.encode s) s bs (laws.decode-encode s) h

  operand-Exact : Pair (write_operand e) (read_operand d) (λ o. o)
  operand-Exact o bs h = coded-Exact d unpicklable d.loads (e.dumps o) o bs (laws.loads-dumps o) h

  instruction-Exact : Pair (write_instruction e) (read_instruction d) kept_instruction
  unfolding write_instruction read_instruction
  instruction-Exact i bs h =
      let (cs, p, h1) = >>=-eq-some (write_string e i.opcode) _ h in
      let (ds, q, h2) = >>=-eq-some (write_list (write_operand e) i.operands) _ h1 in
      subst (λ (l : List ℕ). Exact (read_instruction d) l (kept_instruction i)) (some_inj h2)
        (bind-Exact (read_string d) _ cs ds i.opcode (kept_instruction i)
          (string-Exact i.opcode cs p)
          (last-Exact (read_list (read_operand d))
            (λ xs. record { opcode = i.opcode; operands = xs; span = none }) ds i.operands
            (subst (λ xs. Exact (read_list (read_operand d)) ds xs) (map_id i.operands)
              (list-Exact (write_operand e) (read_operand d) (λ o. o) i.operands ds operand-Exact
                q))))

  strings-Exact :
      (names : List Text) (bs : List ℕ)
      → write_list (write_string e) names ≡ some bs
      → Exact (read_list (read_string d)) bs names
  strings-Exact names bs h =
      subst (λ xs. Exact (read_list (read_string d)) bs xs) (map_id names)
        (list-Exact (write_string e) (read_string d) (λ s. s) names bs string-Exact h)

  function-Exact : Pair (write_function e) (read_function d) kept_function
  unfolding write_function read_function
  function-Exact f bs h =
      let (b1, e1, h1) = >>=-eq-some (write_string e f.name) _ h in
      let (b2, e2, h2) = >>=-eq-some (write_list (write_string e) f.params) _ h1 in
      let (b3, e3, h3) = >>=-eq-some (pack_uint32 f.register_count) _ h2 in
      let (b4, e4, h4) = >>=-eq-some (write_list (write_instruction e) f.instructions) _ h3 in
      let is = map kept_instruction f.instructions in
      subst (λ (l : List ℕ). Exact (read_function d) l (kept_function f)) (some_inj h4)
        (bind-Exact (read_string d) _ b1 (b2 ++ (b3 ++ b4)) f.name (kept_function f)
          (string-Exact f.name b1 e1)
          (bind-Exact (read_list (read_string d)) _ b2 (b3 ++ b4) f.params (kept_function f)
            (strings-Exact f.params b2 e2)
            (bind-Exact read_uint32 _ b3 b4 f.register_count (kept_function f)
              (read_uint32-Exact f.register_count b3 e3)
              (last-Exact (read_list (read_instruction d))
                (λ xs. record {
                  name = f.name;
                  params = f.params;
                  register_count = f.register_count;
                  instructions = xs;
                  symbol_spaces = [];
                  rest_param = none;
                })
                b4 is
                (list-Exact (write_instruction e) (read_instruction d) kept_instruction
                  f.instructions b4 instruction-Exact e4)))))

  diagnostic-Exact : Pair (write_diagnostic e) (read_diagnostic d) kept_diagnostic
  unfolding write_diagnostic read_diagnostic
  diagnostic-Exact x bs h =
      let (b1, e1, h1) = >>=-eq-some (write_string e x.severity) _ h in
      let (b2, e2, h2) = >>=-eq-some (write_string e x.message) _ h1 in
      subst (λ (l : List ℕ). Exact (read_diagnostic d) l (kept_diagnostic x)) (some_inj h2)
        (bind-Exact (read_string d) _ b1 b2 x.severity (kept_diagnostic x)
          (string-Exact x.severity b1 e1)
          (last-Exact (read_string d)
            (λ m. record {
              message = m;
              severity = x.severity;
              line = none;
              column = none;
              span = none;
            })
            b2 x.message (string-Exact x.message b2 e2)))

  -- The program behind the version.
  body-Exact :
      (p : BytecodeProgram Text Object) (b1 b2 b3 b4 b5 : List ℕ)
      → pack_uint32 p.main ≡ some b1
      → pack_uint32 (length p.functions) ≡ some b2
      → pack_uint32 (length p.diagnostics) ≡ some b3
      → write_all (write_function e) p.functions ≡ some b4
      → write_all (write_diagnostic e) p.diagnostics ≡ some b5
      → Exact (read_body d) (b1 ++ (b2 ++ (b3 ++ (b4 ++ b5)))) (kept p)
  unfolding read_body
  body-Exact p b1 b2 b3 b4 b5 e1 e2 e3 e4 e5 =
      let fs = map kept_function p.functions in
      let ds = map kept_diagnostic p.diagnostics in
      bind-Exact read_uint32 _ b1 (b2 ++ (b3 ++ (b4 ++ b5))) p.main (kept p)
        (read_uint32-Exact p.main b1 e1)
        (bind-Exact read_uint32 _ b2 (b3 ++ (b4 ++ b5)) (length p.functions) (kept p)
          (read_uint32-Exact (length p.functions) b2 e2)
          (bind-Exact read_uint32 _ b3 (b4 ++ b5) (length p.diagnostics) (kept p)
            (read_uint32-Exact (length p.diagnostics) b3 e3)
            (bind-Exact (read_many (length p.functions) (read_function d)) _ b4 b5 fs (kept p)
              (all-Exact (write_function e) (read_function d) kept_function p.functions b4
                function-Exact e4)
              (last-Exact (read_many (length p.diagnostics) (read_diagnostic d))
                (λ xs. record {
                  functions = fs;
                  main = p.main;
                  diagnostics = xs;
                  symbol_spaces = [];
                  hygiene_bindings = [];
                  module_macro_exports = [];
                })
                b5 ds
                (all-Exact (write_diagnostic e) (read_diagnostic d) kept_diagnostic p.diagnostics b5
                  diagnostic-Exact e5)))))

  version-Exact : Exact read_uint16 (1 ∷ 0 ∷ []) 1
  unfolding read_uint16
  version-Exact =
      last-Exact (read_bytes 2) unpack_uint16 (1 ∷ 0 ∷ []) (1 ∷ 0 ∷ [])
        (read_bytes-Exact (1 ∷ 0 ∷ []))

  body_at_version :
      (tail : List ℕ) (q : BytecodeProgram Text Object)
      → Exact (read_body d) tail q
      → Exact (check_version d 1) tail q
  unfolding check_version
  body_at_version tail q h = h

  header-Exact :
      (tail : List ℕ) (q : BytecodeProgram Text Object)
      → Exact (read_body d) tail q
      → Exact (check_magic d magic) (1 ∷ 0 ∷ tail) q
  unfolding check_magic
  header-Exact tail q h =
      bind-Exact read_uint16 (check_version d) (1 ∷ 0 ∷ []) tail 1 q version-Exact
        (body_at_version tail q h)

  program-Exact :
      (p : BytecodeProgram Text Object) (bs : List ℕ)
      → serialize_bytecode e p ≡ some bs
      → Exact (deserialize_bytecode d) bs (kept p)
  unfolding serialize_bytecode deserialize_bytecode
  program-Exact p bs h =
      let (b1, e1, h1) = >>=-eq-some (pack_uint32 p.main) _ h in
      let (b2, e2, h2) = >>=-eq-some (pack_uint32 (length p.functions)) _ h1 in
      let (b3, e3, h3) = >>=-eq-some (pack_uint32 (length p.diagnostics)) _ h2 in
      let (b4, e4, h4) = >>=-eq-some (write_all (write_function e) p.functions) _ h3 in
      let (b5, e5, h5) = >>=-eq-some (write_all (write_diagnostic e) p.diagnostics) _ h4 in
      let tail = b1 ++ (b2 ++ (b3 ++ (b4 ++ b5))) in
      subst (λ (l : List ℕ). Exact (deserialize_bytecode d) l (kept p)) (some_inj h5)
        (bind-Exact (read_bytes 4) (check_magic d) magic (1 ∷ 0 ∷ tail) magic (kept p)
          (read_bytes-Exact magic)
          (header-Exact tail (kept p) (body-Exact p b1 b2 b3 b4 b5 e1 e2 e3 e4 e5)))

  -- Where UTF-8 and pickle give back what they encode: from the output of serialize_bytecode with its
  -- end cut off, at whatever byte, deserialize_bytecode raises that the data ends too early.
  pub deserialize_bytecode-truncated :
      (p : BytecodeProgram Text Object) (bs xs : List ℕ)
      → serialize_bytecode e p ≡ some bs
      → Starts xs bs
      → deserialize_bytecode d xs ≡ raised truncated
  deserialize_bytecode-truncated p bs xs h s = (program-Exact p bs h).waits xs s
