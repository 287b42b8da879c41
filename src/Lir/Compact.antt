-- ===== src/Lir/Compact.antt =====
-- qy/passes/lir/compact.py: the renumbering of a function's registers.
pub mod Renames
use qy.Prelude.{
  true, ℕ, zero, suc, ◌+◌, Bool, false, Option, none, some, List, [], ◌∷◌, ◌==◌, leb, length,
  if◌then◌else◌,
}
use qy.Mir.Node.{Item, reg, thing, Operand, int, boolean, bit, tuple, object, nothing}
use qy.Lir.Node.{
  Opcode, load_nil, load_t, load_int, load_float, load_str, load_host, load_env, ss_lookup,
  slot_read, slot_pending_effort, slot_complete, move, define_once, store_local, make_function,
  make_macro, call, call_builtin, tail_call, return, append_result, build_tuple, apply,
  runtime_eval, parallel_gather, all_gather, race_first, cache_eval, define_module, jump_if_false,
  branch_nil, raise_effect, cont_capture, cont_copy, cont_restore, cont_inject, effect_unwind,
  effect_dispatch, handler_push, handler_pop, frame_enter, frame_leave, ss_enter, ss_leave,
  ss_restore, ss_copy, effect_perform, effect_handle_begin, effect_handle_end, effect_resume,
  perform, handle, resume, jump, enter_scope, exit_scope, defeffect, from_import, other,
  Instruction,
}

-- _map_register_operands takes `map_register` as an argument. A plan is the calls that it makes,
-- in their order, up to what it returns; `fail` is an IndexError or a TypeError.
pub data Plan (A : Type 0) : Type 0 where
  done : A → Plan A
  need : ℕ → (ℕ → Plan A) → Plan A
  fail : Plan A

infixl 5 ◌>>=◌
abbrev pub ◌>>=◌ : {A B : Type 0} → Plan A → (A → Plan B) → Plan B
done a >>= f = f a
need r k >>= f = need r (λ m. k m >>= f)
fail >>= f = fail

-- map_register(value): only an integer is mapped.
unfoldable pub ask : Operand → Plan Operand
ask (int r) = need r (λ m. done (int m))
ask (boolean b) = need (bit b) (λ m. done (int m))
ask (tuple items) = done (tuple items)
ask (object n) = done (object n)

unfoldable pub ask_items : List Item → Plan (List Item)
ask_items [] = done []
ask_items (reg r ∷ items) = need r (λ m. ask_items items >>= λ items'. done (reg m ∷ items'))
ask_items (thing n ∷ items) = ask_items items >>= λ items'. done (thing n ∷ items')

-- tuple(map_register(item) for item in operands)
unfoldable pub ask_each : List Operand → Plan (List Operand)
unfolding ask
ask_each [] = done []
ask_each (a ∷ ops) = ask a >>= λ a'. ask_each ops >>= λ ops'. done (a' ∷ ops')

-- tuple(map_register(item) for item in _operand_tuple(operand))
unfoldable pub ask_tuple : Operand → Plan Operand
unfolding ask_items
ask_tuple (tuple items) = ask_items items >>= λ items'. done (tuple items')
ask_tuple (int r) = fail
ask_tuple (boolean b) = fail
ask_tuple (object n) = fail

abbrev None : Operand
None = object nothing

abbrev True : Operand
True = boolean true

-- What an arm of the match writes at a position of its tuple: `map_register(operands[i])`,
-- `operands[i]`, or the operand mapped as a tuple.
pub data Mark : Type 0 where
  mapped kept each : Mark

unfoldable pub ask_mark : Mark → Operand → Plan Operand
unfolding ask ask_tuple
ask_mark mapped a = ask a
ask_mark kept a = done a
ask_mark each a = ask_tuple a

-- The tuple of an arm; operands behind its positions are dropped.
unfoldable pub arm : List Mark → List Operand → Plan (List Operand)
unfolding ask_mark
arm [] ops = done []
arm (m ∷ marks) (a ∷ ops) = ask_mark m a >>= λ a'. arm marks ops >>= λ ops'. done (a' ∷ ops')
arm (m ∷ marks) [] = fail

-- (map_register(operands[0]), *operands[1:])
unfoldable pub keep_rest : List Operand → Plan (List Operand)
unfolding ask
keep_rest (a ∷ ops) = ask a >>= λ a'. done (a' ∷ ops)
keep_rest [] = fail

-- (map_register(operands[0]), *(map_register(item) for item in operands[1:]))
unfoldable pub map_rest : List Operand → Plan (List Operand)
unfolding ask_each
map_rest (a ∷ ops) = ask_each (a ∷ ops)
map_rest [] = fail

-- operands[:3]
abbrev up_to_three : List Operand → List Operand
up_to_three (a ∷ b ∷ c ∷ _) = a ∷ b ∷ c ∷ []
up_to_three ops = ops

-- The arm of CONT_CAPTURE. The register after the resumption is mapped first.
unfoldable pub capture : List Operand → Plan (List Operand)
unfolding ask ask_tuple
capture (a ∷ b ∷ c ∷ []) = ask a >>= λ a'. done (a' ∷ b ∷ c ∷ tuple [] ∷ None ∷ True ∷ [])
capture (a ∷ b ∷ c ∷ d ∷ []) =
    ask a >>= λ a'. ask_tuple d >>= λ d'. done (a' ∷ b ∷ c ∷ d' ∷ None ∷ True ∷ [])
capture (a ∷ b ∷ c ∷ d ∷ e ∷ []) =
    ask e >>= λ e'. ask a >>= λ a'. ask_tuple d >>= λ d'. done (a' ∷ b ∷ c ∷ d' ∷ e' ∷ True ∷ [])
capture (a ∷ b ∷ c ∷ d ∷ e ∷ f ∷ _) =
    ask e >>= λ e'. ask a >>= λ a'. ask_tuple d >>= λ d'. done (a' ∷ b ∷ c ∷ d' ∷ e' ∷ f ∷ [])
capture _ = fail

unfoldable pub map_register_operands : Opcode → List Operand → Plan (List Operand)
unfolding arm keep_rest map_rest ask_each capture
map_register_operands load_nil ops = arm (mapped ∷ []) ops
map_register_operands load_t ops = arm (mapped ∷ []) ops
map_register_operands load_int ops = arm (mapped ∷ kept ∷ []) ops
map_register_operands load_float ops = arm (mapped ∷ kept ∷ []) ops
map_register_operands load_str ops = arm (mapped ∷ kept ∷ []) ops
map_register_operands load_host ops = arm (mapped ∷ kept ∷ []) ops
map_register_operands load_env ops = arm (mapped ∷ kept ∷ []) ops
map_register_operands ss_lookup ops = keep_rest ops
map_register_operands slot_read ops = keep_rest ops
map_register_operands slot_pending_effort ops = keep_rest ops
map_register_operands slot_complete ops = arm (kept ∷ mapped ∷ []) ops
map_register_operands move ops = arm (mapped ∷ mapped ∷ []) ops
map_register_operands define_once ops = arm (kept ∷ mapped ∷ []) ops
map_register_operands store_local ops = arm (kept ∷ mapped ∷ []) ops
map_register_operands make_function ops = arm (mapped ∷ kept ∷ []) ops
map_register_operands make_macro ops = keep_rest ops
map_register_operands call ops = arm (mapped ∷ mapped ∷ each ∷ []) ops
map_register_operands call_builtin ops = arm (mapped ∷ kept ∷ each ∷ []) ops
map_register_operands tail_call ops = arm (mapped ∷ each ∷ []) ops
map_register_operands return ops = arm (mapped ∷ []) ops
map_register_operands append_result ops = arm (mapped ∷ []) ops
map_register_operands build_tuple ops = map_rest ops
map_register_operands apply ops = ask_each ops
map_register_operands runtime_eval ops = ask_each ops
map_register_operands parallel_gather ops = keep_rest ops
map_register_operands all_gather ops = keep_rest ops
map_register_operands race_first ops = keep_rest ops
map_register_operands cache_eval ops = arm (mapped ∷ kept ∷ kept ∷ []) ops
map_register_operands define_module ops = arm (mapped ∷ kept ∷ kept ∷ kept ∷ []) ops
map_register_operands jump_if_false ops = arm (mapped ∷ kept ∷ []) ops
map_register_operands branch_nil ops = arm (mapped ∷ kept ∷ []) ops
map_register_operands raise_effect ops = arm (kept ∷ mapped ∷ kept ∷ []) ops
map_register_operands cont_capture ops = capture ops
map_register_operands cont_copy ops = arm (mapped ∷ mapped ∷ []) ops
map_register_operands cont_restore ops = ask_each (up_to_three ops)
map_register_operands cont_inject ops = arm (mapped ∷ mapped ∷ []) ops
map_register_operands effect_unwind ops = arm (kept ∷ mapped ∷ mapped ∷ []) ops
map_register_operands effect_dispatch ops = arm (mapped ∷ kept ∷ mapped ∷ mapped ∷ []) ops
map_register_operands handler_push ops = done ops
map_register_operands handler_pop ops = done ops
map_register_operands frame_enter ops = done ops
map_register_operands frame_leave ops = done ops
map_register_operands ss_enter ops = done ops
map_register_operands ss_leave ops = done ops
map_register_operands ss_restore ops = done ops
map_register_operands ss_copy ops = done ops
map_register_operands effect_perform ops = arm (mapped ∷ kept ∷ mapped ∷ kept ∷ kept ∷ []) ops
map_register_operands effect_handle_begin ops = done ops
map_register_operands effect_handle_end ops = arm (kept ∷ mapped ∷ []) ops
map_register_operands effect_resume ops = ask_each (up_to_three ops)
map_register_operands perform ops = arm (mapped ∷ kept ∷ mapped ∷ []) ops
map_register_operands handle ops = arm (mapped ∷ kept ∷ kept ∷ []) ops
map_register_operands resume ops = ask_each (up_to_three ops)
map_register_operands jump ops = done ops
map_register_operands enter_scope ops = done ops
map_register_operands exit_scope ops = done ops
map_register_operands defeffect ops = done ops
map_register_operands from_import ops = done ops
map_register_operands (other n) ops = done ops

-- The calls of `map_register` over all instructions. A new instruction is not `continuous`.
unfoldable pub remap : List Instruction → Plan (List Instruction)
unfolding map_register_operands
remap [] = done []
remap (i ∷ is) = map_register_operands i.opcode i.operands >>= λ ops.
    remap is >>= λ js. done (record { opcode = i.opcode; operands = ops; continuous = false } ∷ js)

-- register_map and next_register.
pub record Renaming : Type 0 where
  pub register_map : List (ℕ × ℕ)
  pub next_register : ℕ

unfoldable pub get : ℕ → List (ℕ × ℕ) → Option ℕ
get r [] = none
get r ((q, m) ∷ d) = if q == r then some m else get r d

abbrev bind_register : ℕ → Renaming → Option ℕ → ℕ × Renaming
bind_register r s (some m) = (m, s)
bind_register r s none = (
  s.next_register,
  record {
    register_map = (r, s.next_register) ∷ s.register_map;
    next_register = s.next_register + 1;
  },
)

unfoldable pub map_register : ℕ → Renaming → ℕ × Renaming
unfolding get
map_register r s = bind_register r s (get r s.register_map)

-- The calls answered by map_register.
unfoldable pub run : {A : Type 0} → Plan A → Renaming → Option (A × Renaming)
unfolding map_register
run (done a) s = some (a, s)
run (need r k) s = run (k (map_register r s).0) (map_register r s).1
run fail s = none

-- {index: index for index, _ in enumerate(params)}, from an index on.
unfoldable pub identity : ℕ → List ℕ → List (ℕ × ℕ)
identity index [] = []
identity index (p ∷ params) = (index, index) ∷ identity (suc index) params

abbrev pub at_first : List ℕ → Renaming
at_first params = record { register_map = identity 0 params; next_register = length params }

abbrev pub max : ℕ → ℕ → ℕ
max a b = if leb b a then a else b

abbrev pub counted : List ℕ → Option (List Instruction × Renaming) → Option (List Instruction × ℕ)
counted params none = none
counted params (some (is, s)) = some (is, max s.next_register (length params))

-- The register count that it takes is not used.
unfoldable pub compact_registers : List ℕ → List Instruction → ℕ → Option (List Instruction × ℕ)
unfolding run remap identity
compact_registers params instructions register_count =
    counted params (run (remap instructions) (at_first params))
