-- ===== src/DataStructure/UserList/Names.antt =====
-- Each user that `list_module_init` adds is found again under the name of its number.
use linux_kernel_samples.Base.{
  ℕ, zero, suc, ◌+◌, ◌-◌, ◌*◌, ◌%◌, ◌^◌, ◌<◌, ◌≤◌, ◌≡◌, refl, sym, ap, ◌∙◌, Bool-cases, true, ◌⊎◌,
  inl, inr, some, List, [], ◌∷◌, ℤ, pos, arith, ltb,
}
use linux_kernel_samples.Kernel.{enomem}
use Prim.Native.Nat.{◌/◌}
use linux_kernel_samples.DataStructure.UserList.Text.{
  Text, length, take-all, scnprintf, digits_of, decimal, same_text, same_text→eq, same_text_refl,
}
use linux_kernel_samples.DataStructure.UserList.Memory.{
  Address, UserInfo, Heap, entry_or_null, ListHead, Store, Env, IsSane, Ends,
}
use linux_kernel_samples.DataStructure.UserList.Memory.Hoare.{mono}
use linux_kernel_samples.DataStructure.UserList.Users.{
  max_username_length, get_elem?, get_user_info,
}
use linux_kernel_samples.DataStructure.UserList.Init.{name_of, add_users}
use linux_kernel_samples.DataStructure.UserList.Spec.{find}
use linux_kernel_samples.DataStructure.UserList.Lookup.{
  Looked, get_user_info-FoundAt, FoundAt-Looked,
}
use linux_kernel_samples.DataStructure.UserList.Rep.{IsList, FoundAt}
use linux_kernel_samples.DataStructure.UserList.Build.{Added, Built, add_users-Built}
use linux_kernel_samples.DataStructure.UserList.Load.{empty-IsList}

-- The number that decimal digits stand for, after those that made `acc`.
abbrev value_from : ℕ → Text → ℕ
value_from acc [] = acc
value_from acc (c ∷ cs) = value_from (acc * 10 + (c - 48)) cs

abbrev drop : ℕ → Text → Text
drop zero cs = cs
drop (suc n) [] = []
drop (suc n) (c ∷ cs) = drop n cs

-- The number in `username#<i>`.
abbrev number_in : Text → ℕ
number_in name = value_from 0 (drop 9 name)

value-digits_of :
    (fuel n : ℕ) (rest : Text)
    → n < 10 ^ fuel
    → value_from 0 (digits_of fuel n rest) ≡ value_from n rest
unfolding digits_of
value-digits_of zero n rest small = ap (λ (x : ℕ). value_from x rest) (omega (arith, small))
value-digits_of (suc fuel) n rest small = elim (Bool-cases (ltb n 10)) [
  | inl one ↦ rw one (ap (λ (x : ℕ). value_from x rest) (omega arith))
  | inr more ↦ rw more (
      value-digits_of fuel (n / 10) ((48 + n % 10) ∷ rest) (omega (arith, small))
      ∙ ap (λ (x : ℕ). value_from x rest) (omega arith))
]

number_in-name_of : (i : ℕ) → i < 2 ^ 32 → number_in (name_of i) ≡ i
unfolding decimal
number_in-name_of i small = value-digits_of 10 i [] (omega (arith, small))

length-digits_of : (fuel n : ℕ) (rest : Text) → length (digits_of fuel n rest) ≤ fuel + length rest
unfolding digits_of
length-digits_of zero n rest = omega arith
length-digits_of (suc fuel) n rest =
    ground (arith, length-digits_of fuel (n / 10) ((48 + n % 10) ∷ rest))

-- The buffer of a name has room for every number.
fits : (i : ℕ) → scnprintf max_username_length (name_of i) ≡ name_of i
unfolding decimal
fits i = take-all 31 (name_of i) (omega (arith, length-digits_of 10 i []))

same_name : (i j : ℕ) → i < 2 ^ 32 → j < 2 ^ 32 → same_text (name_of i) (name_of j) ≡ true → i ≡ j
same_name i j si sj e =
    sym (number_in-name_of i si)
    ∙ ap number_in (same_text→eq (name_of i) (name_of j) e)
    ∙ number_in-name_of j sj

find-Added :
    (left i d : ℕ) (us : List UserInfo)
    → Added left i us
    → i + left ≤ 2 ^ 32
    → i + d < 2 ^ 32
    → find (name_of (i + d)) us ≡ get_elem? us d
find-Added zero i d [] a room small = refl
find-Added zero i d (u ∷ us) a room small = absurd a
find-Added (suc left) i d [] a room small = absurd a
find-Added (suc left) i zero (u ∷ us) (name, ok, a) room small =
    let same : i + 0 ≡ i = omega arith in rw (same, name, fits i, same_text_refl (name_of i))
find-Added (suc left) i (suc d) (u ∷ us) (name, ok, a) room small =
    elim (Bool-cases (same_text (name_of i) (name_of (i + suc d)))) [
      | inl same ↦ absurd (omega (arith, same_name i (i + suc d) (omega (arith, small)) small same))
      | inr other ↦
          let shift : (i + 1) + d ≡ i + suc d = omega arith in
          let rest = find-Added left (i + 1) d us a (omega (arith, room)) (omega (arith, small)) in
          rw (name, fits i, other) (rw shift at rest)
    ]

-- The node of number `d`, or NULL.
abbrev pub address_at : List Address → ℕ → Address
address_at ps d = entry_or_null (get_elem? ps d)

FoundAt-Added :
    (left i d : ℕ) (ps : List Address) (us : List UserInfo) (r : Address)
    → Added left i us
    → i + left ≤ 2 ^ 32
    → i + d < 2 ^ 32
    → FoundAt (name_of (i + d)) ps us r
    → r ≡ address_at ps d
FoundAt-Added zero i d [] us r a room small f = f
FoundAt-Added zero i d (p ∷ ps) [] r a room small f = absurd f
FoundAt-Added zero i d (p ∷ ps) (u ∷ us) r a room small f = absurd a
FoundAt-Added (suc left) i d [] us r a room small f = f
FoundAt-Added (suc left) i d (p ∷ ps) [] r a room small f = absurd f
FoundAt-Added (suc left) i zero (p ∷ ps) (u ∷ us) r (name, ok, a) room small f =
    let same : i + 0 ≡ i = omega arith in rw (same, name, fits i, same_text_refl (name_of i)) at f
FoundAt-Added (suc left) i (suc d) (p ∷ ps) (u ∷ us) r (name, ok, a) room small f =
    elim (Bool-cases (same_text (name_of i) (name_of (i + suc d)))) [
      | inl same ↦ absurd (omega (arith, same_name i (i + suc d) (omega (arith, small)) small same))
      | inr other ↦
          let shift : (i + 1) + d ≡ i + suc d = omega arith in
          FoundAt-Added left (i + 1) d ps us r a (omega (arith, room)) (omega (arith, small))
            (rw shift (rw (name, fits i, other) at f))
    ]

module _ (lib : ListHead) where
  -- Either the list links `n` users at `ps`, and memory outside them is as in `h0`; and looking up the
  -- name of number `j` changes nothing and returns the address in place `j` of `ps`, which holds the user
  -- in place `j`, or NULL if there is no such place; or an allocation has failed.
  abbrev pub Numbered : Heap → ℕ → ℕ → ℤ → Store lib → Type 0
  Numbered h0 n j ret s =
      ((ret ≡ pos 0)
        × (ps : List Address) × (us : List UserInfo) × IsList lib h0 ps us s
        × (length us ≡ n)
        × Ends (λ r s'. (s' ≡ s) × (r ≡ address_at ps j) × Looked s ps (get_elem? us j) r)
            (get_user_info lib (some (name_of j)) s))
      ⊎ (ret ≡ enomem)

length-Added : (left i : ℕ) (us : List UserInfo) → Added left i us → length us ≡ left
length-Added zero i [] a = refl
length-Added zero i (u ∷ us) a = absurd a
length-Added (suc left) i [] a = absurd a
length-Added (suc left) i (u ∷ us) a = ap (λ (x : ℕ). suc x) (length-Added left (i + 1) us a.2)

module _ (lib : ListHead) (env : Env lib) (sane : IsSane lib env) where
  -- From an empty list, with an allocator that returns fresh memory or NULL, after at most 2^32 rounds
  -- of the loop that adds users, and for a number of 32 bits: either the loop returns 0, the list links
  -- as many users as rounds, and a lookup of `username#<j>` changes nothing and returns the address of
  -- the node in place `j` of the list, which holds the user in place `j`, or NULL if there is none; or
  -- the loop returns -ENOMEM.
  pub add_users-Numbered :
      (n j : ℕ) (s : Store lib)
      → n ≤ 2 ^ 32
      → j < 2 ^ 32
      → lib.nodes s.gs_user_info_list ≡ []
      → Ends (Numbered lib s.heap n j) (add_users lib env n 0 s)
  add_users-Numbered n j s room small e =
      mono lib (Built lib env sane s.heap [] n 0) (Numbered lib s.heap n j)
        (add_users lib env n 0 s)
        (add_users-Built lib env sane n 0 [] [] s (empty-IsList lib env sane s e))
        λ ret s' built. elim built [
          | inl (z, ps, us, is, added) ↦
              let start : 0 + j ≡ j = omega arith in
              let found = find-Added n 0 j us added (omega (arith, room)) (omega (arith, small)) in
              inl (
                z,
                ps,
                us,
                is,
                length-Added n 0 us added,
                mono lib (λ r s1. (s1 ≡ s') × FoundAt (name_of j) ps us r)
                    (λ r s1. (s1 ≡ s') × (r ≡ address_at ps j) × Looked s' ps (get_elem? us j) r)
                    (get_user_info lib (some (name_of j)) s')
                    (get_user_info-FoundAt lib (name_of j) s' is)
                    λ r s1 (e1, f). (
                      e1,
                      FoundAt-Added n 0 j ps us r added (omega (arith, room)) (omega (arith, small))
                          (rw start f),
                      rw (← (rw start at found)) (FoundAt-Looked lib (name_of j) ps us r s' is f),
                    ),
              )
          | inr (z, ps, us, is) ↦ inr z
        ]
