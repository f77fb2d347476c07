-- ===== src/Bytecode/Chunk/RoundTrip.antt =====
-- src/bytecode/chunk.h: what the emitters write, the readers of the same kind read back.
use arc_jit.Bytecode.Chunk.{
  BytecodeReader, Chunk, OpCode, emit_byte, emit_const_idx, emit_op, emit_short, op_byte,
  op_of_byte, read_byte, read_const_idx, read_op, read_short,
}
use mathlib.Core.List.{append-nil}
use arc_jit.Prelude.{
  ℕ, ◌+◌, ◌*◌, ◌/◌, ◌%◌, ◌^◌, ◌<◌, ◌≡◌, refl, sym, ap, ◌∙◌, All, List, [], ◌∷◌, ◌++◌, append_assoc,
  Option, ◌>>=◌, some, arith, length, length-append, get_elem?, get_elem?-append_right,
}

-- One emission: an operation, a constant index or a jump offset.
pub data Item : Type 0 where
  op : OpCode → Item
  const_idx short : ℕ → Item

-- The numbers that an emission can hold.
abbrev pub Fits : Item → Type 0
Fits (op o) = Unit
Fits (const_idx i) = i < 2 ^ 24
Fits (short i) = i < 2 ^ 16

abbrev pub emit : Item → Chunk → Chunk
emit (op o) = emit_op o
emit (const_idx i) = emit_const_idx i
emit (short i) = emit_short i

abbrev pub emit_all : List Item → Chunk → Chunk
emit_all [] c = c
emit_all (i ∷ is) c = emit_all is (emit i c)

-- The read of the same kind.
abbrev pub read_like : Item → BytecodeReader → Option (Item × BytecodeReader)
read_like (op _) r = do (o, next) ← read_op r; some (op o, next)
read_like (const_idx _) r = do (i, next) ← read_const_idx r; some (const_idx i, next)
read_like (short _) r = do (i, next) ← read_short r; some (short i, next)

abbrev pub read_all : List Item → BytecodeReader → Option (List Item × BytecodeReader)
read_all [] r = some ([], r)
read_all (i ∷ is) r = do (j, next) ← read_like i r; (js, end) ← read_all is next; some (j ∷ js, end)

abbrev pub item_bytes : Item → List ℕ
item_bytes (op o) = op_byte o ∷ []
item_bytes (const_idx i) = i / 2 ^ 16 % 2 ^ 8 ∷ i / 2 ^ 8 % 2 ^ 8 ∷ i % 2 ^ 8 ∷ []
item_bytes (short i) = i / 2 ^ 8 % 2 ^ 8 ∷ i % 2 ^ 8 ∷ []

-- An emission appends its bytes and changes nothing else.
pub emit_lem : (i : Item) (c : Chunk) → emit i c ≡ record c { code = c.code ++ item_bytes i }
unfolding emit_byte emit_const_idx emit_short
emit_lem (op o) c = refl
emit_lem (const_idx i) c =
    ap (λ xs. record c { code = xs })
      (append_assoc (c.code ++ (i / 2 ^ 16 % 2 ^ 8 ∷ [])) (i / 2 ^ 8 % 2 ^ 8 ∷ []) (i % 2 ^ 8 ∷ [])
        ∙ append_assoc c.code (i / 2 ^ 16 % 2 ^ 8 ∷ []) (i / 2 ^ 8 % 2 ^ 8 ∷ i % 2 ^ 8 ∷ []))
emit_lem (short i) c =
    ap (λ xs. record c { code = xs })
      (append_assoc c.code (i / 2 ^ 8 % 2 ^ 8 ∷ []) (i % 2 ^ 8 ∷ []))

emit-code : (i : Item) (c : Chunk) → (emit i c).code ≡ c.code ++ item_bytes i
emit-code i c = ap (λ (x : Chunk). x.code) (emit_lem i c)

op_of_byte-op_byte : (o : OpCode) → op_of_byte (op_byte o) ≡ some o
op_of_byte-op_byte OpCode.load_const = refl
op_of_byte-op_byte OpCode.load_var = refl
op_of_byte-op_byte OpCode.load_local = refl
op_of_byte-op_byte OpCode.store_var = refl
op_of_byte-op_byte OpCode.store_local = refl
op_of_byte-op_byte OpCode.add = refl
op_of_byte-op_byte OpCode.sub = refl
op_of_byte-op_byte OpCode.mul = refl
op_of_byte-op_byte OpCode.div = refl
op_of_byte-op_byte OpCode.pow = refl
op_of_byte-op_byte OpCode.neg = refl
op_of_byte-op_byte OpCode.not = refl
op_of_byte-op_byte OpCode.eq = refl
op_of_byte-op_byte OpCode.ne = refl
op_of_byte-op_byte OpCode.lt = refl
op_of_byte-op_byte OpCode.gt = refl
op_of_byte-op_byte OpCode.lte = refl
op_of_byte-op_byte OpCode.gte = refl
op_of_byte-op_byte OpCode.and = refl
op_of_byte-op_byte OpCode.or = refl
op_of_byte-op_byte OpCode.jump = refl
op_of_byte-op_byte OpCode.jump_if_false = refl
op_of_byte-op_byte OpCode.call = refl
op_of_byte-op_byte OpCode.return_op = refl
op_of_byte-op_byte OpCode.break_op = refl
op_of_byte-op_byte OpCode.continue_op = refl
op_of_byte-op_byte OpCode.index_get = refl
op_of_byte-op_byte OpCode.index_set = refl
op_of_byte-op_byte OpCode.build_list = refl
op_of_byte-op_byte OpCode.pop = refl
op_of_byte-op_byte OpCode.for_prep = refl
op_of_byte-op_byte OpCode.for_iter = refl
op_of_byte-op_byte OpCode.try_push = refl
op_of_byte-op_byte OpCode.try_pop = refl
op_of_byte-op_byte OpCode.import_op = refl
op_of_byte-op_byte OpCode.property_access = refl
op_of_byte-op_byte OpCode.property_set = refl
op_of_byte-op_byte OpCode.halt = refl

first_byte :
    (before : List ℕ) (b : ℕ) (rest : List ℕ)
    → get_elem? (before ++ b ∷ rest) (length before) ≡ some b
first_byte [] b rest = refl
first_byte (x ∷ xs) b rest = first_byte xs b rest

whole_short : (i : ℕ) → i < 2 ^ 16 → i / 2 ^ 8 % 2 ^ 8 * 2 ^ 8 + i % 2 ^ 8 ≡ i
whole_short i h = omega arith

whole_idx :
    (i : ℕ) → i < 2 ^ 24 → i / 2 ^ 16 % 2 ^ 8 * 2 ^ 16 + i / 2 ^ 8 % 2 ^ 8 * 2 ^ 8 + i % 2 ^ 8 ≡ i
whole_idx i h = omega arith

-- A read inside any code that holds the bytes of the item.
read_like-bytes :
    (i : Item) (before rest : List ℕ)
    → Fits i
    → read_like i (record { bytes = before ++ (item_bytes i ++ rest); ip = length before })
      ≡ some (
        i,
        record {
          bytes = before ++ (item_bytes i ++ rest);
          ip = length before + length (item_bytes i);
        },
      )
unfolding read_byte read_op read_const_idx read_short
read_like-bytes (op o) before rest h =
    rw (first_byte before (op_byte o) rest, op_of_byte-op_byte o) refl
read_like-bytes (const_idx i) before rest h =
    let xs = item_bytes (const_idx i) ++ rest in
    rw
      (
        first_byte before (i / 2 ^ 16 % 2 ^ 8) (i / 2 ^ 8 % 2 ^ 8 ∷ i % 2 ^ 8 ∷ rest),
        get_elem?-append_right before xs 1,
        get_elem?-append_right before xs 2,
        whole_idx i h,
      )
      refl
read_like-bytes (short i) before rest h =
    let xs = item_bytes (short i) ++ rest in
    rw
      (
        first_byte before (i / 2 ^ 8 % 2 ^ 8) (i % 2 ^ 8 ∷ rest),
        get_elem?-append_right before xs 1,
        whole_short i h,
      )
      refl

abbrev pub all_bytes : List Item → List ℕ
all_bytes [] = []
all_bytes (i ∷ is) = item_bytes i ++ all_bytes is

pub emit_all-code :
    (is : List Item) (c : Chunk) (rest : List ℕ)
    → (emit_all is c).code ++ rest ≡ c.code ++ (all_bytes is ++ rest)
emit_all-code [] c rest = refl
emit_all-code (i ∷ is) c rest =
    emit_all-code is (emit i c) rest
    ∙ ap (λ xs. xs ++ (all_bytes is ++ rest)) (emit-code i c)
    ∙ append_assoc c.code (item_bytes i) (all_bytes is ++ rest)
    ∙ ap (λ xs. c.code ++ xs) (sym (append_assoc (item_bytes i) (all_bytes is) rest))

pub emit_all_lem :
    (is : List Item) (c : Chunk) → emit_all is c ≡ record c { code = c.code ++ all_bytes is }
emit_all_lem [] c = ap (λ xs. record c { code = xs }) (sym (append-nil c.code))
emit_all_lem (i ∷ is) c =
    ap (emit_all is) (emit_lem i c)
    ∙ emit_all_lem is (record c { code = c.code ++ item_bytes i })
    ∙ ap (λ xs. record c { code = xs }) (append_assoc c.code (item_bytes i) (all_bytes is))

-- The read of the first of the emissions.
read_like-emit_all :
    (i : Item) (is : List Item) (c : Chunk) (rest : List ℕ)
    → Fits i
    → read_like i (record { bytes = (emit_all is (emit i c)).code ++ rest; ip = length c.code })
      ≡ some
          (i, record { bytes = (emit_all is (emit i c)).code ++ rest; ip = length (emit i c).code })
read_like-emit_all i is c rest h =
    let split =
      emit_all-code (i ∷ is) c rest
      ∙ ap (λ xs. c.code ++ xs) (append_assoc (item_bytes i) (all_bytes is) rest) in
    rw (split, ap length (emit-code i c) ∙ length-append c.code (item_bytes i))
      (read_like-bytes i c.code (all_bytes is ++ rest) h)

-- Every sequence of emissions, each of an operation, of a constant index below 2 ^ 24 or of the 16
-- bits of an offset, is read back, in order, by the reads of the same kinds, and the reads end
-- where the emissions ended; whatever the chunk held before and whatever bytes follow.
pub read_all-emit_all :
    (is : List Item) (c : Chunk) (rest : List ℕ)
    → All Fits is
    → read_all is (record { bytes = (emit_all is c).code ++ rest; ip = length c.code })
      ≡ some (is, record { bytes = (emit_all is c).code ++ rest; ip = length (emit_all is c).code })
read_all-emit_all [] c rest h = refl
read_all-emit_all (i ∷ is) c rest (h, hs) =
    rw (read_like-emit_all i is c rest h, read_all-emit_all is (emit i c) rest hs) refl
