-- ===== src/DataStructure/ContainerOf.antt =====
-- data_structure/container_of.c: a struct found again from pointers to its members.
pub mod Recovery
use linux_kernel_samples.Base.{
  ℕ, ◌≡◌, ◌<◌, ◌+◌, ◌-◌, ◌%◌, ◌^◌, String, Bool, true, false, List, [], ◌∷◌, ℤ, pos, ◌==◌,
  if◌then◌else◌,
}

-- The offsets of the members that the sample takes the address of. The compiler lays the struct out.
pub record Layout : Type 0 where
  pub aligned_value : ℕ
  pub nested_value : ℕ
  pub nested_value_value : ℕ
  pub tail : ℕ

pub data Arg : Type 0 where
  pointer : ℕ → Arg
  offset : ℕ → Arg
  answer : Bool → Arg  -- `yes` or `no`

pub data Line : Type 0 where
  line : String → List Arg → Line

-- `&obj.member`, for a pointer of 64 bits.
abbrev pub member : ℕ → ℕ → ℕ
member obj off = (obj + off) % 2 ^ 64

-- `container_of` of <linux/container_of.h>, of a pointer and an offset: it subtracts the offset.
pub record Macro : Type 0 where
  pub container_of : ℕ → ℕ → ℕ
  pub subtracts :
      (ptr off : ℕ) → off < 2 ^ 64 → container_of ptr off ≡ (ptr + (2 ^ 64 - off)) % 2 ^ 64

-- What the load returns, and what it logs, in order, for an object at an address. The values that the
-- members are given are never read.
unfoldable pub container_of_module_init : Macro → Layout → ℕ → ℤ × List Line
container_of_module_init macro l obj =
    let value_ptr : ℕ = member obj l.aligned_value in
    let tail_ptr : ℕ = member obj l.tail in
    let inner_value_ptr : ℕ = member obj l.nested_value_value in
    let from_value : ℕ = macro.container_of value_ptr l.aligned_value in
    let from_tail : ℕ = macro.container_of tail_ptr l.tail in
    let from_inner_value : ℕ = macro.container_of inner_value_ptr l.nested_value_value in
    (
      pos 0,
      line "obj = %px, nested_value at offset %zu" (pointer obj ∷ offset l.nested_value ∷ [])
          ∷ line "[1] aligned_value, before nested_value" []
          ∷ line "  value_ptr  = %px" (pointer value_ptr ∷ [])
          ∷ line "  offsetof   = %zu" (offset l.aligned_value ∷ [])
          ∷ line "  from_value = %px" (pointer from_value ∷ [])
          ∷ line "[2] tail, after nested_value" []
          ∷ line "  tail_ptr  = %px" (pointer tail_ptr ∷ [])
          ∷ line "  offsetof  = %zu" (offset l.tail ∷ [])
          ∷ line "  from_tail = %px" (pointer from_tail ∷ [])
          ∷ line "[3] nested_value.value, inside nested_value" []
          ∷ line "  inner_value_ptr  = %px" (pointer inner_value_ptr ∷ [])
          ∷ line "  offsetof         = %zu" (offset l.nested_value_value ∷ [])
          ∷ line "  from_inner_value = %px" (pointer from_inner_value ∷ [])
          ∷ line "[check]" []
          ∷ line "  from_value == &obj       : %s" (answer (from_value == obj) ∷ [])
          ∷ line "  from_tail == &obj        : %s" (answer (from_tail == obj) ∷ [])
          ∷ line "  from_inner_value == &obj : %s" (answer (from_inner_value == obj) ∷ [])
          ∷ line "loaded" []
          ∷ [],
    )

unfoldable pub container_of_module_exit : List Line
container_of_module_exit = line "unloaded" [] ∷ []
