-- ===== src/Core/Node.antt =====
-- src/core/node.h: identifiers, node kinds, flags, types and the node record.
use arc_jit.Prelude.{ℕ, Bool, true, false, ◌&&◌, ◌||◌, ◌!=◌}

-- A `NodeId` is its 32-bit index; the sentinel 0xFFFFFFFF is the invalid one.
abbrev pub NodeId : Type 0
NodeId = ℕ

abbrev pub no_index : ℕ
no_index = 0xFFFF_FFFF

abbrev pub valid : NodeId → Bool
valid id = id != no_index

-- The enumerators in the order of the source, without the sentinel `Count`.
pub data NodeKind : Type 0 where
  start stop region if_kind if_true if_false loop_kind loop_exit jump return_kind branch : NodeKind
  unreachable const_int const_float const_null const_undef const_string const_func : NodeKind
  const_class frame_state deopt add sub mul div pow neg eq ne lt gt lte gte and or not : NodeKind
  shl shr to_float to_bool load_var store_var load_local store_local load_field : NodeKind
  store_field load_index store_index allocate shape_of check_shape check_int check_float : NodeKind
  check_not_null check_bounds call call_native call_known for_begin for_next try_begin : NodeKind
  try_end throw phi effect_phi parameter machine_op : NodeKind

pub data TypeId : Type 0 where
  top bottom int float bool null undef string list function : TypeId
  native_function class instance object int_or_float non_null_obj : TypeId

-- A mask over the thirteen flags: one Boolean for each bit.
pub record NodeFlags : Type 0 where
  pub pure : Bool
  pub cseable : Bool
  pub gvnable : Bool
  pub commutative : Bool
  pub no_throw : Bool
  pub no_deopt : Bool
  pub has_frame_state : Bool
  pub is_allocated : Bool
  pub is_pinned : Bool
  pub is_guard : Bool
  pub is_control : Bool
  pub is_effect : Bool
  pub is_dead : Bool

-- `operator|` and `has_flag` (some bit of the mask is set).
infixl 30 ◌∪◌
unfoldable pub ◌∪◌ : NodeFlags → NodeFlags → NodeFlags
a ∪ b = record {
  pure = b.pure || a.pure;
  cseable = b.cseable || a.cseable;
  gvnable = b.gvnable || a.gvnable;
  commutative = b.commutative || a.commutative;
  no_throw = b.no_throw || a.no_throw;
  no_deopt = b.no_deopt || a.no_deopt;
  has_frame_state = b.has_frame_state || a.has_frame_state;
  is_allocated = b.is_allocated || a.is_allocated;
  is_pinned = b.is_pinned || a.is_pinned;
  is_guard = b.is_guard || a.is_guard;
  is_control = b.is_control || a.is_control;
  is_effect = b.is_effect || a.is_effect;
  is_dead = b.is_dead || a.is_dead;
}

abbrev pub has_flag : NodeFlags → NodeFlags → Bool
has_flag f mask =
    mask.pure && f.pure
    || mask.cseable && f.cseable
    || mask.gvnable && f.gvnable
    || mask.commutative && f.commutative
    || mask.no_throw && f.no_throw
    || mask.no_deopt && f.no_deopt
    || mask.has_frame_state && f.has_frame_state
    || mask.is_allocated && f.is_allocated
    || mask.is_pinned && f.is_pinned
    || mask.is_guard && f.is_guard
    || mask.is_control && f.is_control
    || mask.is_effect && f.is_effect
    || mask.is_dead && f.is_dead

-- `None`, from which each enumerator sets one bit.
abbrev pub no_flags : NodeFlags
no_flags = record {
  pure = false;
  cseable = false;
  gvnable = false;
  commutative = false;
  no_throw = false;
  no_deopt = false;
  has_frame_state = false;
  is_allocated = false;
  is_pinned = false;
  is_guard = false;
  is_control = false;
  is_effect = false;
  is_dead = false;
}

abbrev pub pure_flag : NodeFlags
pure_flag = record no_flags { pure = true }

abbrev pub cseable_flag : NodeFlags
cseable_flag = record no_flags { cseable = true }

abbrev pub gvnable_flag : NodeFlags
gvnable_flag = record no_flags { gvnable = true }

abbrev pub commutative_flag : NodeFlags
commutative_flag = record no_flags { commutative = true }

abbrev pub no_throw_flag : NodeFlags
no_throw_flag = record no_flags { no_throw = true }

abbrev pub no_deopt_flag : NodeFlags
no_deopt_flag = record no_flags { no_deopt = true }

abbrev pub has_frame_state_flag : NodeFlags
has_frame_state_flag = record no_flags { has_frame_state = true }

abbrev pub is_allocated_flag : NodeFlags
is_allocated_flag = record no_flags { is_allocated = true }

abbrev pub is_pinned_flag : NodeFlags
is_pinned_flag = record no_flags { is_pinned = true }

abbrev pub is_guard_flag : NodeFlags
is_guard_flag = record no_flags { is_guard = true }

abbrev pub is_control_flag : NodeFlags
is_control_flag = record no_flags { is_control = true }

abbrev pub is_effect_flag : NodeFlags
is_effect_flag = record no_flags { is_effect = true }

abbrev pub is_dead_flag : NodeFlags
is_dead_flag = record no_flags { is_dead = true }

pub record Node : Type 0 where
  pub kind : NodeKind
  pub type : TypeId
  pub flags : NodeFlags
  pub payload : ℕ
  pub first_input : ℕ
  pub first_use : ℕ
  pub input_count : ℕ
  pub use_count : ℕ

-- `Node{}`: every field zero.
abbrev pub zero_node : Node
zero_node = record {
  kind = start;
  type = top;
  flags = no_flags;
  payload = 0;
  first_input = 0;
  first_use = 0;
  input_count = 0;
  use_count = 0;
}

abbrev pub dead : Node → Bool
dead n = has_flag n.flags is_dead_flag
