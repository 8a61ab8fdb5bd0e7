-- ===== src/DataStructure/UserList/Build.antt =====
-- The loop of `list_module_init` that adds the users.
use mathlib.Core.List.{append-nil, append_assoc}
use linux_kernel_samples.Base.{
  ℕ, zero, suc, ◌+◌, ◌%◌, ◌^◌, ◌<◌, ◌≡◌, ◌≢◌, refl, ◌∙◌, Bool-cases, false, ◌||◌, some, List, [],
  ◌∷◌, ◌++◌, ℤ, pos, arith, ◌==◌, ◌⊎◌, inl, inr, true,
}
use Prim.Native.Nat.{◌/◌}
use linux_kernel_samples.Kernel.{enomem}
use linux_kernel_samples.DataStructure.UserList.Text.{Text, codes, digits_of, decimal, scnprintf}
use linux_kernel_samples.DataStructure.UserList.Buffer.{
  Bytes, has_nul, no_nul, no_nul-append, Holding,
}
use linux_kernel_samples.DataStructure.UserList.Memory.{
  Address, null, UserInfo, Heap, has, ListHead, Store, Env, IsSane, Ends,
}
use linux_kernel_samples.DataStructure.UserList.Memory.Hoare.{bind, mono}
use linux_kernel_samples.DataStructure.UserList.Users.{
  max_cart_size, max_username_length, set_age, set_n_cart_items, set_username,
}
use linux_kernel_samples.DataStructure.UserList.Init.{
  name_of, zeroed, kzalloc, get_random_u32_below, fill_cart, add_user, add_users,
}
use linux_kernel_samples.DataStructure.UserList.Spec.{name_in}
use linux_kernel_samples.DataStructure.UserList.Links.{list_add_tail-done}
use linux_kernel_samples.DataStructure.UserList.Rep.{Rep, IsList, Rep-write}
use linux_kernel_samples.DataStructure.UserList.Building.{
  Building, Building-same, IsCart, IsUser, Filled, not-has_of_none, set_age-Building,
  set_n-Building, set_username-Building, fill_cart-Filled,
}

has-snoc : (q p : Address) (ps : List Address) → has q (ps ++ p ∷ []) ≡ (has q ps || (q == p))
has-snoc q p [] = ground arith
has-snoc q p (r ∷ ps) = ground (arith, has-snoc q p ps)

Rep-snoc :
    (h : Heap) (ps : List Address) (us : List UserInfo) (p : Address) (v : UserInfo)
    → Rep h ps us
    → h p ≡ some v
    → has p ps ≡ false
    → p ≢ null
    → has_nul v.username ≡ true
    → Rep h (ps ++ p ∷ []) (us ++ v ∷ [])
Rep-snoc h [] [] p v rep e out ne z = (e, refl, ne, tt, z)
Rep-snoc h [] (u ∷ us) p v rep e out ne z = absurd rep
Rep-snoc h (q ∷ ps) [] p v rep e out ne z = absurd rep
Rep-snoc h (q ∷ ps) (u ∷ us) p v rep e out ne z = (
  rep.0,
  ground (arith, has-snoc q p ps, rep.1),
  rep.2,
  Rep-snoc h ps us p v rep.3 e (ground arith) ne z,
  rep.4,
)

-- The users that the loop has added, from number `i` on.
abbrev pub Added : ℕ → ℕ → List UserInfo → Type 0
Added zero i [] = Unit
Added zero i (v ∷ vs) = ⊥
Added (suc left) i [] = ⊥
Added (suc left) i (v ∷ vs) =
    (name_in v ≡ scnprintf max_username_length (name_of i)) × IsUser v × Added left (i + 1) vs

no_nul-digits_of :
    (fuel n : ℕ) (rest : Text) → no_nul rest ≡ true → no_nul (digits_of fuel n rest) ≡ true
unfolding digits_of
no_nul-digits_of zero n rest h = h
no_nul-digits_of (suc fuel) n rest h =
    ground (arith, h, no_nul-digits_of fuel (n / 10) ((48 + n % 10) ∷ rest))

no_nul-name_of : (i : ℕ) → no_nul (name_of i) ≡ true
unfolding decimal
no_nul-name_of i =
    no_nul-append (codes "username#") (digits_of 10 i []) refl (no_nul-digits_of 10 i [] refl)

zeroed-IsCart : IsCart zeroed
zeroed-IsCart = omega arith

module _ (lib : ListHead) (env : Env lib) (sane : IsSane lib env) where
  kzalloc-Building :
      {h0 : Heap} {ps : List Address} {us : List UserInfo} {s : Store lib}
      → IsList lib h0 ps us s
      → Ends
          (λ p s'.
            ((p ≡ null) × IsList lib h0 ps us s')
            ⊎ ((p ≢ null) × Building lib h0 ps us p zeroed s'))
          (kzalloc lib env s)
  unfolding kzalloc
  kzalloc-Building {h0} {ps} {us} {s} is = elim (Bool-cases (env.kzalloc s == null)) [
    | inl e ↦ rw e (
        inl (
          refl,
          record { linked = is.linked; rep = is.rep; outside = is.outside; before = is.before },
        ))
    | inr e ↦
        let p : Address = env.kzalloc s in
        let ne : p ≢ null = ground arith in
        let apart : has p ps ≡ false = not-has_of_none s.heap ps us p is.rep (sane.fresh s ne) in
        rw e (
          inr (
            ne,
            record {
              linked = is.linked;
              rep = Rep-write s.heap ps us p (some zeroed) apart is.rep;
              here = ground arith;
              apart = apart;
              ne_null = ne;
              outside = λ q o. ground (arith, is.outside q);
              before = λ q o. ground (arith, is.before q, is.outside q, sane.fresh s ne, apart);
            },
          ))
  ]

  module _ (h0 : Heap) (ps : List Address) (us : List UserInfo) where
    link-IsList :
        {p : Address} {v : UserInfo} {s : Store lib}
        → Building lib h0 ps us p v s
        → has_nul v.username ≡ true
        → IsList lib h0
            (ps ++ p ∷ [])
            (us ++ v ∷ [])
            (record s { gs_user_info_list = lib.list_add_tail p s.gs_user_info_list })
    link-IsList {p} {v} {s} b z = record {
      linked = lib.nodes-add_tail p s.gs_user_info_list (rw (b.linked) (b.apart)) ∙ rw (b.linked);
      rep = Rep-snoc s.heap ps us p v b.rep b.here b.apart b.ne_null z;
      outside = λ q e. ground (arith, has-snoc q p ps, b.outside q);
      before = λ q e. ground (arith, has-snoc q p ps, b.before q);
    }

    -- The list after one more user.
    abbrev Grown : ℕ → Store lib → Type 0
    Grown i s =
        (v : UserInfo) × (p : Address) × IsList lib h0 (ps ++ p ∷ []) (us ++ v ∷ []) s
        × (name_in v ≡ scnprintf max_username_length (name_of i))
        × IsUser v

    add_user-Grown :
        (i : ℕ) (p : Address) (s : Store lib)
        → Building lib h0 ps us p zeroed s
        → Ends (λ _ s'. Grown i s') (add_user lib env i p s)
    unfolding add_user get_random_u32_below
    add_user-Grown i p s b =
        bind lib
          (λ _ s'.
            (buffer : Bytes) × Building lib h0 ps us p (record zeroed { username = buffer }) s'
            × Holding zeroed.username (scnprintf max_username_length (name_of i)) buffer)
          (λ _ s'. Grown i s') (set_username lib p (name_of i) s) _
          (set_username-Building lib (name_of i) (no_nul-name_of i) refl b)
          λ _ s1 (buffer, b1, holding).
            let age : ℕ = env.get_random_u32_below s1 100 in
            let young : age < 100 = sane.in_range s1 100 (omega arith) in
            let d1 : Store lib = record s1 { draws = s1.draws + 1 } in
            bind lib (λ _ s'. Building lib h0 ps us p _ s') (λ _ s'. Grown i s')
              (set_age lib p (age + 1) d1) _
              (set_age-Building lib (age + 1) (Building-same lib d1 refl refl b1))
              λ _ s2 b2.
                let n : ℕ = env.get_random_u32_below s2 (max_cart_size + 1) in
                let few : n < max_cart_size + 1 =
                  sane.in_range s2 (max_cart_size + 1) (omega arith) in
                let d2 : Store lib = record s2 { draws = s2.draws + 1 } in
                bind lib (λ _ s'. Building lib h0 ps us p _ s') (λ _ s'. Grown i s')
                  (set_n_cart_items lib p n d2) _
                  (set_n-Building lib n (Building-same lib d2 refl refl b2))
                  λ _ s3 b3.
                    bind lib (λ _ s'. (v : UserInfo) × Building lib h0 ps us p v s' × Filled _ v)
                      (λ _ s'. Grown i s') (fill_cart lib env (n % 2 ^ 8) 0 p s3) _
                      (fill_cart-Filled lib env sane (n % 2 ^ 8) 0 (omega arith)
                        (omega (arith, zeroed-IsCart)) b3)
                      λ _ s4 (v, b4, f).
                        rw (list_add_tail-done s4 ps us (b4.rep) (b4.linked) p v (b4.here)) (
                          v,
                          p,
                          link-IsList b4 (rw (f.name) (holding.ends)),
                          rw (f.name) (holding.holds),
                          record {
                            cart = f.cart;
                            items = rw (f.items) (omega arith);
                            old = rw (f.age) (omega arith);
                            young = rw (f.age) (omega arith);
                          },
                        )

  -- What the loop leaves behind: all the users, or after a failed allocation some list to be freed.
  abbrev pub Built : Heap → List UserInfo → ℕ → ℕ → ℤ → Store lib → Type 0
  Built h0 us left i ret s =
      ((ret ≡ pos 0)
        × (ps' : List Address) × (vs : List UserInfo) × IsList lib h0 ps' (us ++ vs) s
        × Added left i vs)
      ⊎ ((ret ≡ enomem) × (ps' : List Address) × (us' : List UserInfo) × IsList lib h0 ps' us' s)

  pub add_users-Built :
      {h0 : Heap} (left i : ℕ) (ps : List Address) (us : List UserInfo) (s : Store lib)
      → IsList lib h0 ps us s
      → Ends (Built h0 us left i) (add_users lib env left i s)
  unfolding add_users
  add_users-Built zero i ps us s is = inl (refl, ps, [], rw append-nil is, tt)
  add_users-Built {h0} (suc left) i ps us s is =
      bind lib
        (λ p s'.
          ((p ≡ null) × IsList lib h0 ps us s') ⊎ ((p ≢ null) × Building lib h0 ps us p zeroed s'))
        (Built h0 us (suc left) i) (kzalloc lib env s) _ (kzalloc-Building is)
        λ p s1 got. elim got [
          | inl (e, is1) ↦ rw e (inr (refl, ps, us, is1))
          | inr (ne, b) ↦
              let real : (p == null) ≡ false = ground arith in
              rw real (
                bind lib (λ _ s'. Grown h0 ps us i s') (Built h0 us (suc left) i)
                  (add_user lib env i p s1) _ (add_user-Grown h0 ps us i p s1 b)
                  λ _ s2 (v, q, is2, name, ok).
                    mono lib (Built h0 (us ++ v ∷ []) left (i + 1)) (Built h0 us (suc left) i)
                      (add_users lib env left (i + 1) s2)
                      (add_users-Built left (i + 1) (ps ++ q ∷ []) (us ++ v ∷ []) s2 is2)
                      λ ret s3 built. elim built [
                        | inl (z, ps', vs, is3, more) ↦
                            inl (z, ps', v ∷ vs, rw append_assoc at is3, (name, ok, more))
                        | inr (z, ps', us', is3) ↦ inr (z, ps', us', is3)
                      ])
        ]
