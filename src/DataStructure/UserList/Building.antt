-- ===== src/DataStructure/UserList/Building.antt =====
-- A user that has been allocated and is not in the list yet.
use linux_kernel_samples.Base.{
  ℕ, zero, suc, ◌+◌, ◌%◌, ◌^◌, ◌<◌, ◌≤◌, ◌≡◌, ◌≢◌, refl, ◌∙◌, true, false, none, some, List, [],
  ◌∷◌, arith, ltb,
}
use linux_kernel_samples.DataStructure.UserList.Text.{Text, length, scnprintf}
use linux_kernel_samples.DataStructure.UserList.Buffer.{Bytes, no_nul, Holding, scnprintf-Holding}
use linux_kernel_samples.DataStructure.UserList.Memory.{
  Address, null, UserInfo, Heap, write, has, ListHead, Store, Env, IsSane, Ends,
}
use linux_kernel_samples.DataStructure.UserList.Memory.Hoare.{bind, mono}
use linux_kernel_samples.DataStructure.UserList.Users.{
  max_cart_size, max_username_length, n_food_codes, set, set_cart, set_age, set_n_cart_items,
  set_username,
}
use linux_kernel_samples.DataStructure.UserList.Init.{
  get_random_u32_below, pick_random_food, fill_cart,
}
use linux_kernel_samples.DataStructure.UserList.Rep.{Rep, Rep-write}

-- The object at `p` is `u`; the list is as `IsList` says, and `p` is not in it.
pub record Building (lib : ListHead) (h0 : Heap) (ps : List Address) (us : List UserInfo)
    (p : Address) (u : UserInfo) (s : Store lib) : Type 0 where
  pub linked : lib.nodes s.gs_user_info_list ≡ ps
  pub rep : Rep s.heap ps us
  pub here : s.heap p ≡ some u
  pub apart : has p ps ≡ false
  pub ne_null : p ≢ null
  pub outside : (q : Address) → has q (p ∷ ps) ≡ false → s.heap q ≡ h0 q
  pub before : (q : Address) → has q (p ∷ ps) ≡ true → h0 q ≡ none

pub not-has_of_none :
    (h : Heap) (ps : List Address) (us : List UserInfo) (p : Address)
    → Rep h ps us
    → h p ≡ none
    → has p ps ≡ false
not-has_of_none h [] [] p rep e = refl
not-has_of_none h [] (u ∷ us) p rep e = absurd rep
not-has_of_none h (q ∷ ps) [] p rep e = absurd rep
not-has_of_none h (q ∷ ps) (u ∷ us) p rep e = ground (arith, not-has_of_none h ps us p rep.3, rep.0)

abbrev pub AllBelow : ℕ → List ℕ → Type 0
AllBelow n [] = Unit
AllBelow n (x ∷ xs) = (x < n) × AllBelow n xs

-- The cart has room for all its items, and each is a food.
pub record IsCart (u : UserInfo) : Type 0 where
  pub room : length u.shopping_cart ≡ max_cart_size
  pub foods : AllBelow n_food_codes u.shopping_cart

pub record IsUser (u : UserInfo) : Type 0 where
  pub cart : IsCart u
  pub items : u.n_cart_items ≤ max_cart_size
  pub old : 1 ≤ u.age
  pub young : u.age ≤ 100

pub set-IsCart :
    (xs : List ℕ) (j food : ℕ)
    → food < n_food_codes
    → AllBelow n_food_codes xs
    → (length (set xs j food) ≡ length xs) × AllBelow n_food_codes (set xs j food)
set-IsCart [] j food lt all = (refl, tt)
set-IsCart (x ∷ xs) zero food lt all = (refl, (lt, all.1))
set-IsCart (x ∷ xs) (suc j) food lt all =
    let rest = set-IsCart xs j food lt all.1 in (omega arith, (all.0, rest.1))

-- What filling the cart leaves alone.
pub record Filled (u v : UserInfo) : Type 0 where
  pub cart : IsCart v
  pub age : v.age ≡ u.age
  pub items : v.n_cart_items ≡ u.n_cart_items
  pub name : v.username ≡ u.username

module _ (lib : ListHead) {h0 : Heap} {ps : List Address} {us : List UserInfo} {p : Address} where
  pub Building-write :
      {u : UserInfo} {s : Store lib} (v : UserInfo)
      → Building lib h0 ps us p u s
      → Building lib h0 ps us p v (record s { heap = write s.heap p (some v) })
  Building-write {s} v b = record {
    linked = b.linked;
    rep = Rep-write s.heap ps us p (some v) b.apart b.rep;
    here = ground arith;
    apart = b.apart;
    ne_null = b.ne_null;
    outside = λ q e. ground (arith, b.outside q);
    before = b.before;
  }

  -- A draw, or a line of the log, changes neither memory nor list.
  pub Building-same :
      {u : UserInfo} {s : Store lib} (s' : Store lib)
      → s'.heap ≡ s.heap
      → s'.gs_user_info_list ≡ s.gs_user_info_list
      → Building lib h0 ps us p u s
      → Building lib h0 ps us p u s'
  Building-same s' e f b = record {
    linked = rw f (b.linked);
    rep = rw e (b.rep);
    here = rw e (b.here);
    apart = b.apart;
    ne_null = b.ne_null;
    outside = λ q h. rw e (b.outside q h);
    before = b.before;
  }

  pub set_cart-Building :
      {u : UserInfo} {s : Store lib} (j food : ℕ)
      → j < max_cart_size
      → Building lib h0 ps us p u s
      → Ends
          (λ _ s'.
            Building lib h0 ps us p (record u { shopping_cart = set u.shopping_cart j food }) s')
          (set_cart lib p j food s)
  unfolding set_cart
  set_cart-Building j food lt b =
      let inside : ltb j max_cart_size ≡ true = ground arith in
      rw (b.here, inside, b.here) (Building-write _ b)

  pub set_age-Building :
      {u : UserInfo} {s : Store lib} (age : ℕ)
      → Building lib h0 ps us p u s
      → Ends
          (λ _ s'. Building lib h0 ps us p (record u { age = age % 2 ^ 8 }) s')
          (set_age lib p age s)
  unfolding set_age
  set_age-Building age b = rw (b.here, b.here) (Building-write _ b)

  pub set_n-Building :
      {u : UserInfo} {s : Store lib} (n : ℕ)
      → Building lib h0 ps us p u s
      → Ends
          (λ _ s'. Building lib h0 ps us p (record u { n_cart_items = n % 2 ^ 8 }) s')
          (set_n_cart_items lib p n s)
  unfolding set_n_cart_items
  set_n-Building n b = rw (b.here, b.here) (Building-write _ b)

  pub set_username-Building :
      {u : UserInfo} {s : Store lib} (name : Text)
      → no_nul name ≡ true
      → length u.username ≡ max_username_length
      → Building lib h0 ps us p u s
      → Ends
          (λ _ s'.
            (buffer : Bytes) × Building lib h0 ps us p (record u { username = buffer }) s'
            × Holding u.username (scnprintf max_username_length name) buffer)
          (set_username lib p name s)
  unfolding set_username
  set_username-Building {u} name plain room b =
      let (buffer, written, holding) = scnprintf-Holding 31 name u.username plain room in
      rw (b.here, written, b.here) (buffer, Building-write _ b, holding)

  module _ (env : Env lib) (sane : IsSane lib env) where
    pub fill_cart-Filled :
        (left j : ℕ) {u : UserInfo} {s : Store lib}
        → j + left ≤ max_cart_size
        → IsCart u
        → Building lib h0 ps us p u s
        → Ends
            (λ _ s'. (v : UserInfo) × Building lib h0 ps us p v s' × Filled u v)
            (fill_cart lib env left j p s)
    unfolding fill_cart pick_random_food get_random_u32_below
    fill_cart-Filled zero j {u} le c b =
        (u, b, record { cart = c; age = refl; items = refl; name = refl })
    fill_cart-Filled (suc left) j {u} {s} le c b =
        let food : ℕ = env.get_random_u32_below s n_food_codes in
        let new =
          set-IsCart u.shopping_cart j food (sane.in_range s n_food_codes (omega arith)) c.foods in
        let drawn : Store lib = record s { draws = s.draws + 1 } in
        bind lib
          (λ _ s'.
            Building lib h0 ps us p (record u { shopping_cart = set u.shopping_cart j food }) s')
          (λ _ s'. (v : UserInfo) × Building lib h0 ps us p v s' × Filled u v)
          (set_cart lib p j food drawn) _
          (set_cart-Building j food (omega arith) (Building-same drawn refl refl b))
          λ _ s1 b1.
            mono lib
              (λ _ s'.
                (v : UserInfo) × Building lib h0 ps us p v s'
                × Filled (record u { shopping_cart = set u.shopping_cart j food }) v)
              (λ _ s'. (v : UserInfo) × Building lib h0 ps us p v s' × Filled u v)
              (fill_cart lib env left (j + 1) p s1)
              (fill_cart-Filled left (j + 1) (omega arith)
                (record { room = new.0 ∙ c.room; foods = new.1 }) b1)
              λ _ s2 (v, b2, f).
                (v, b2, record { cart = f.cart; age = f.age; items = f.items; name = f.name })
