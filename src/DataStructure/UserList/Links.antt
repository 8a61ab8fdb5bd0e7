-- ===== src/DataStructure/UserList/Links.antt =====
-- Where all entries of the list are allocated, the list primitives do not fault.
use linux_kernel_samples.Base.{
  ◌≡◌, refl, true, Option, none, some, List, [], ◌∷◌, arith, ◌==◌, Bool-cases, inl, inr,
}
use linux_kernel_samples.DataStructure.UserList.Memory.{
  Address, UserInfo, Heap, has, first_in, next_in, prev_in, last_in, ListHead, Store, done, touch,
  list_del, list_add_tail,
}
use linux_kernel_samples.DataStructure.UserList.Rep.{Rep}

-- The head, or an entry of the list.
abbrev IsEntry : Option Address → List Address → Type 0
IsEntry none ps = Unit
IsEntry (some q) ps = has q ps ≡ true

cons-IsEntry :
    (o : Option Address) (p : Address) (ps : List Address) → IsEntry o ps → IsEntry o (p ∷ ps)
cons-IsEntry none p ps e = tt
cons-IsEntry (some q) p ps e = ground (arith, e)

first_in-IsEntry : (ps : List Address) → IsEntry (first_in ps) ps
first_in-IsEntry [] = tt
first_in-IsEntry (p ∷ ps) = ground arith

next_in-IsEntry : (p : Address) (ps : List Address) → IsEntry (next_in p ps) ps
next_in-IsEntry p [] = tt
next_in-IsEntry p (q ∷ ps) = elim (Bool-cases (p == q)) [
  | inl same ↦ rw same (cons-IsEntry (first_in ps) q ps (first_in-IsEntry ps))
  | inr other ↦ rw other (cons-IsEntry (next_in p ps) q ps (next_in-IsEntry p ps))
]

prev_in-IsEntry : (p : Address) (ps : List Address) → IsEntry (prev_in p ps) ps
prev_in-IsEntry p [] = tt
prev_in-IsEntry p (q ∷ []) = tt
prev_in-IsEntry p (q ∷ r ∷ ps) = elim (Bool-cases (p == r)) [
  | inl same ↦ rw same (ground arith)
  | inr other ↦ rw other (cons-IsEntry (prev_in p (r ∷ ps)) q (r ∷ ps) (prev_in-IsEntry p (r ∷ ps)))
]

last_in-IsEntry : (ps : List Address) → IsEntry (last_in ps) ps
last_in-IsEntry [] = tt
last_in-IsEntry (p ∷ []) = ground arith
last_in-IsEntry (p ∷ q ∷ ps) = cons-IsEntry (last_in (q ∷ ps)) p (q ∷ ps) (last_in-IsEntry (q ∷ ps))

Rep-allocated :
    (h : Heap) (ps : List Address) (us : List UserInfo) (q : Address)
    → Rep h ps us
    → has q ps ≡ true
    → (u : UserInfo) × (h q ≡ some u)
Rep-allocated h [] us q rep e = absurd (cc)
Rep-allocated h (p ∷ ps) [] q rep e = absurd rep
Rep-allocated h (p ∷ ps) (u ∷ us) q rep e = elim (Bool-cases (q == p)) [
  | inl same ↦ (u, let at : q ≡ p = ground arith in rw at (rep.0))
  | inr other ↦ Rep-allocated h ps us q rep.3 (ground arith)
]

module _ {lib : ListHead} (s : Store lib) (ps : List Address) (us : List UserInfo)
    (rep : Rep s.heap ps us) where
  touch-done : (o : Option Address) → IsEntry o ps → touch o s ≡ done tt s
  touch-done none e = refl
  touch-done (some q) e = let (u, at) = Rep-allocated s.heap ps us q rep e in rw at refl

  module _ (linked : lib.nodes s.gs_user_info_list ≡ ps) where
    pub list_del-done :
        (p : Address)
        → has p ps ≡ true
        → list_del p s
          ≡ done tt (record s { gs_user_info_list = lib.list_del p s.gs_user_info_list })
    list_del-done p inside = simp (
      linked,
      touch-done (some p) inside,
      touch-done (prev_in p ps) (prev_in-IsEntry p ps),
      touch-done (next_in p ps) (next_in-IsEntry p ps),
    )

    -- A new entry, which is not linked yet.
    pub list_add_tail-done :
        (p : Address) (v : UserInfo)
        → s.heap p ≡ some v
        → list_add_tail p s
          ≡ done tt (record s { gs_user_info_list = lib.list_add_tail p s.gs_user_info_list })
    list_add_tail-done p v here = simp (linked, here, touch-done (last_in ps) (last_in-IsEntry ps))
