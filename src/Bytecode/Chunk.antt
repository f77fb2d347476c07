-- ===== src/Bytecode/Chunk.antt =====
-- src/bytecode/chunk.h: the byte code of a function and its reader. An object of the heap is its
-- address; a 16-bit or 32-bit integer is the number that its bits write.
pub mod RoundTrip
pub mod Patch
use arc_jit.Core.Graph.{u16, u32}
use arc_jit.Prelude.{
  ℕ, ◌+◌, ◌-◌, ◌*◌, ◌/◌, ◌%◌, ◌^◌, Bool, ltb, leb, if◌then◌else◌, Option, ◌>>=◌, none, some, List,
  [], ◌∷◌, ◌++◌, length, get_elem?, set,
}

-- The enumerators in the order of the source, without the sentinel `Count`.
pub data OpCode : Type 0 where
  load_const load_var load_local store_var store_local add sub mul div pow neg not : OpCode
  eq ne lt gt lte gte and or jump jump_if_false call return_op break_op continue_op : OpCode
  index_get index_set build_list pop for_prep for_iter try_push try_pop import_op : OpCode
  property_access property_set halt : OpCode

abbrev pub op_byte : OpCode → ℕ
op_byte OpCode.load_const = 0
op_byte OpCode.load_var = 1
op_byte OpCode.load_local = 2
op_byte OpCode.store_var = 3
op_byte OpCode.store_local = 4
op_byte OpCode.add = 5
op_byte OpCode.sub = 6
op_byte OpCode.mul = 7
op_byte OpCode.div = 8
op_byte OpCode.pow = 9
op_byte OpCode.neg = 10
op_byte OpCode.not = 11
op_byte OpCode.eq = 12
op_byte OpCode.ne = 13
op_byte OpCode.lt = 14
op_byte OpCode.gt = 15
op_byte OpCode.lte = 16
op_byte OpCode.gte = 17
op_byte OpCode.and = 18
op_byte OpCode.or = 19
op_byte OpCode.jump = 20
op_byte OpCode.jump_if_false = 21
op_byte OpCode.call = 22
op_byte OpCode.return_op = 23
op_byte OpCode.break_op = 24
op_byte OpCode.continue_op = 25
op_byte OpCode.index_get = 26
op_byte OpCode.index_set = 27
op_byte OpCode.build_list = 28
op_byte OpCode.pop = 29
op_byte OpCode.for_prep = 30
op_byte OpCode.for_iter = 31
op_byte OpCode.try_push = 32
op_byte OpCode.try_pop = 33
op_byte OpCode.import_op = 34
op_byte OpCode.property_access = 35
op_byte OpCode.property_set = 36
op_byte OpCode.halt = 37

pub record Position : Type 0 where
  pub line : ℕ
  pub col : ℕ
  pub offset : ℕ

pub record PosEntry : Type 0 where
  pub offset : ℕ
  pub start : Position
  pub end : Position

pub record Chunk : Type 0 where
  pub code : List ℕ
  pub constants : List ℕ
  pub positions : List PosEntry
  pub filename : List ℕ
  pub max_locals : ℕ

abbrev pub new_chunk : Chunk
new_chunk = record { code = []; constants = []; positions = []; filename = []; max_locals = 0 }

unfoldable pub emit_byte : ℕ → Chunk → Chunk
emit_byte b c = record c { code = c.code ++ (b ∷ []) }

abbrev pub emit_op : OpCode → Chunk → Chunk
emit_op op c = emit_byte (op_byte op) c

-- The cast to a byte and the mask `& 0xFF` both keep the low eight bits.
unfoldable pub emit_const_idx : ℕ → Chunk → Chunk
emit_const_idx idx c =
    emit_byte (idx % 2 ^ 8) (emit_byte (idx / 2 ^ 8 % 2 ^ 8) (emit_byte (idx / 2 ^ 16 % 2 ^ 8) c))

-- The offset as its 16 bits.
unfoldable pub emit_short : ℕ → Chunk → Chunk
emit_short off c = emit_byte (off % 2 ^ 8) (emit_byte (off / 2 ^ 8 % 2 ^ 8) c)

-- The index of the new constant.
unfoldable pub add_const : ℕ → Chunk → ℕ × Chunk
add_const obj c = (u32 (length c.constants), record c { constants = c.constants ++ (obj ∷ []) })

unfoldable pub patch_byte : ℕ → ℕ → Chunk → Chunk
patch_byte offset b c =
    if ltb offset (length c.code) then record c { code = set c.code offset b } else c

unfoldable pub patch_short : ℕ → ℕ → Chunk → Chunk
patch_short offset v c =
    if ltb (offset + 1) (length c.code)
    then record c { code = set (set c.code offset (v / 2 ^ 8 % 2 ^ 8)) (offset + 1) (v % 2 ^ 8) }
    else c

pub record BytecodeReader : Type 0 where
  pub bytes : List ℕ
  pub ip : ℕ

abbrev pub at_end : BytecodeReader → Bool
at_end r = leb (length r.bytes) r.ip

-- The enumerator of a byte; 38 and above name none.
abbrev op_codes : List OpCode
op_codes =
    OpCode.load_const ∷ OpCode.load_var ∷ OpCode.load_local ∷ OpCode.store_var ∷ OpCode.store_local
    ∷ OpCode.add ∷ OpCode.sub ∷ OpCode.mul ∷ OpCode.div ∷ OpCode.pow ∷ OpCode.neg ∷ OpCode.not
    ∷ OpCode.eq ∷ OpCode.ne ∷ OpCode.lt ∷ OpCode.gt ∷ OpCode.lte ∷ OpCode.gte ∷ OpCode.and
    ∷ OpCode.or ∷ OpCode.jump ∷ OpCode.jump_if_false ∷ OpCode.call ∷ OpCode.return_op
    ∷ OpCode.break_op ∷ OpCode.continue_op ∷ OpCode.index_get ∷ OpCode.index_set ∷ OpCode.build_list
    ∷ OpCode.pop ∷ OpCode.for_prep ∷ OpCode.for_iter ∷ OpCode.try_push ∷ OpCode.try_pop
    ∷ OpCode.import_op ∷ OpCode.property_access ∷ OpCode.property_set ∷ OpCode.halt ∷ []

abbrev pub op_of_byte : ℕ → Option OpCode
op_of_byte b = get_elem? op_codes b

-- A read past the end is undefined in the source: here its result is `none`.
unfoldable pub read_byte : BytecodeReader → Option (ℕ × BytecodeReader)
read_byte r = do b ← get_elem? r.bytes r.ip; some (b, record r { ip = r.ip + 1 })

-- A byte that names no enumerator is left to the caller, here as `none`.
unfoldable pub read_op : BytecodeReader → Option (OpCode × BytecodeReader)
unfolding read_byte
read_op r = do (b, next) ← read_byte r; op ← op_of_byte b; some (op, next)

-- The shifted bytes share no bit, so that `|` is their sum.
unfoldable pub read_const_idx : BytecodeReader → Option (ℕ × BytecodeReader)
read_const_idx r = do
  a ← get_elem? r.bytes r.ip
  b ← get_elem? r.bytes (r.ip + 1)
  c ← get_elem? r.bytes (r.ip + 2)
  some (a * 2 ^ 16 + b * 2 ^ 8 + c, record r { ip = r.ip + 3 })

-- The offset as its 16 bits.
unfoldable pub read_short : BytecodeReader → Option (ℕ × BytecodeReader)
read_short r = do
  a ← get_elem? r.bytes r.ip
  b ← get_elem? r.bytes (r.ip + 1)
  some (a * 2 ^ 8 + b, record r { ip = r.ip + 2 })
