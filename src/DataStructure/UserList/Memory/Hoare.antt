-- ===== src/DataStructure/UserList/Memory/Hoare.antt =====
-- How postconditions of runs over the store compose.
use linux_kernel_samples.DataStructure.UserList.Memory.{
  ListHead, Store, Run, done, fault, Cmd, and_then, Ends,
}

module _ (lib : ListHead) where
  pub bind :
      {A B : Type 0} (P : A → Store lib → Type 0) (Q : B → Store lib → Type 0) (r : Run lib A)
      (f : A → Cmd lib B)
      → Ends P r
      → ((a : A) (s : Store lib) → P a s → Ends Q (f a s))
      → Ends Q (and_then r f)
  bind P Q (done a s) f p next = next a s p
  bind P Q fault f p next = absurd p

  pub mono :
      {A : Type 0} (P Q : A → Store lib → Type 0) (r : Run lib A)
      → Ends P r
      → ((a : A) (s : Store lib) → P a s → Q a s)
      → Ends Q r
  mono P Q (done a s) p next = next a s p
  mono P Q fault p next = absurd p
