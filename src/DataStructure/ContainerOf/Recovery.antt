-- ===== src/DataStructure/ContainerOf/Recovery.antt =====
-- The struct is found again, wherever it lies.
use linux_kernel_samples.Base.{
  ℕ, ◌+◌, ◌^◌, ◌<◌, ◌≡◌, refl, Bool, true, ◌&&◌, pos, List, [], ◌∷◌, arith, ==_refl,
}
use linux_kernel_samples.DataStructure.ContainerOf.{
  Layout, Arg, answer, Line, line, member, Macro, container_of_module_init,
}

-- Every check that is logged says `yes`.
abbrev pub is_yes : Arg → Bool
is_yes (answer b) = b
is_yes _ = true

abbrev pub all_yes : List Arg → Bool
all_yes [] = true
all_yes (a ∷ as') = is_yes a && all_yes as'

abbrev pub args_of : Line → List Arg
args_of (line format args) = args

abbrev pub checks_pass : List Line → Bool
checks_pass [] = true
checks_pass (l ∷ ls) = all_yes (args_of l) && checks_pass ls

abbrev is_check : List Arg → ℕ
is_check [] = 0
is_check (answer b ∷ as') = 1
is_check (_ ∷ as') = is_check as'

-- The lines that answer a check.
abbrev pub count_checks : List Line → ℕ
count_checks [] = 0
count_checks (l ∷ ls) = is_check (args_of l) + count_checks ls

container_of-member :
    (macro : Macro) (obj off : ℕ)
    → obj < 2 ^ 64
    → off < 2 ^ 64
    → macro.container_of (member obj off) off ≡ obj
container_of-member macro obj off small fits =
    omega (arith, macro.subtracts (member obj off) off fits)

-- For any object in a space of 64 bits and any layout, also where the addresses wrap: all three
-- pointers lead back to the object. The load returns 0, it logs three checks, and each says `yes`.
pub container_of_module_init-passes :
    (macro : Macro) (l : Layout) (obj : ℕ)
    → obj < 2 ^ 64
    → l.aligned_value < 2 ^ 64
    → l.tail < 2 ^ 64
    → l.nested_value_value < 2 ^ 64
    → ((container_of_module_init macro l obj).0 ≡ pos 0)
      × (count_checks (container_of_module_init macro l obj).1 ≡ 3)
      × (checks_pass (container_of_module_init macro l obj).1 ≡ true)
unfolding container_of_module_init
container_of_module_init-passes macro l obj small value tail inner = (
  refl,
  refl,
  rw
      (
        container_of-member macro obj l.aligned_value small value,
        container_of-member macro obj l.tail small tail,
        container_of-member macro obj l.nested_value_value small inner,
        ==_refl obj,
      )
      refl,
)
