-- ===== src/DataStructure/UserList/Silent.antt =====
-- The commands that log nothing.
use linux_kernel_samples.Base.{
  ℕ, zero, suc, ◌+◌, ◌%◌, ◌^◌, ◌≡◌, refl, ◌∙◌, Bool, Bool-cases, true, false, inl, inr, Option,
  none, some, List, [], ◌∷◌, pos, if◌then◌else◌, ltb, ◌==◌,
}
use linux_kernel_samples.DataStructure.UserList.Text.{Text, length}
use linux_kernel_samples.DataStructure.UserList.Buffer.{strcmp, scnprintf_into}
use linux_kernel_samples.DataStructure.UserList.Memory.{
  Address, null, UserInfo, ListHead, Store, Env, Run, done, fault, Cmd, and_then, ◌>>=◌, pure,
  loaded, load, store, kfree, list_del, list_add_tail, Ends, unlink, link, touch, nodes, next_entry,
  prev_in, next_in, last_in, first_in, entry_or_null,
}
use linux_kernel_samples.DataStructure.UserList.Users.{
  max_username_length, max_cart_size, find_from, get_user_info, delete_user_info, free_from,
  free_all_user_infos, set_cart, set_age, set_n_cart_items, set_username,
}
use linux_kernel_samples.DataStructure.UserList.Init.{
  kzalloc, get_random_u32_below, pick_random_food, fill_cart, add_user, add_users,
}

module _ {lib : ListHead} where
  -- If the run ends without a fault, it ends in `P`.
  abbrev pub IfDone : {A : Type 0} → (A → Store lib → Type 0) → Run lib A → Type 0
  IfDone P (done a s) = P a s
  IfDone P fault = Unit

  abbrev pub Silent : {A : Type 0} → Cmd lib A → Type 0
  Silent m = (s : Store lib) → IfDone (λ _ s'. s'.printed ≡ s.printed) (m s)

  -- A run that ends in `P`, and in `Q` if it ends.
  pub both :
      {A : Type 0} (P Q : A → Store lib → Type 0) (r : Run lib A)
      → Ends P r
      → IfDone Q r
      → Ends (λ a s. P a s × Q a s) r
  both P Q (done a s) p q = (p, q)
  both P Q fault p q = absurd p

  relay :
      {A : Type 0} (s1 s : Store lib) (r : Run lib A)
      → IfDone (λ _ s'. s'.printed ≡ s1.printed) r
      → s1.printed ≡ s.printed
      → IfDone (λ _ s'. s'.printed ≡ s.printed) r
  relay s1 s (done a s') e f = e ∙ f
  relay s1 s fault e f = tt

  bind_from :
      {A B : Type 0} (s : Store lib) (r : Run lib A) (f : A → Cmd lib B)
      → IfDone (λ _ s'. s'.printed ≡ s.printed) r
      → ((a : A) → Silent (f a))
      → IfDone (λ _ s'. s'.printed ≡ s.printed) (and_then r f)
  bind_from s (done a s1) f e silent = relay s1 s (f a s1) (silent a s1) e
  bind_from s fault f e silent = tt

  bind-Silent :
      {A B : Type 0} (m : Cmd lib A) (f : A → Cmd lib B)
      → Silent m
      → ((a : A) → Silent (f a))
      → Silent (m >>= f)
  bind-Silent m f first rest s = bind_from s (m s) f (first s) rest

  if-Silent :
      {A : Type 0} (b : Bool) (m n : Cmd lib A) → Silent m → Silent n → Silent (if b then m else n)
  if-Silent true m n yes_silent no_silent = yes_silent
  if-Silent false m n yes_silent no_silent = no_silent

  loaded-Silent : {A : Type 0} (o : Option A) → Silent (loaded o)
  loaded-Silent none s = tt
  loaded-Silent (some a) s = refl

  load-Silent : (p : Address) → Silent (load p)
  load-Silent p s = loaded-Silent (s.heap p) s

  store-Silent : (p : Address) (u : UserInfo) → Silent (store p u)
  store-Silent p u = bind-Silent (load p) _ (load-Silent p) (λ v s. refl)

  kfree-Silent : (p : Address) → Silent (kfree p)
  kfree-Silent p = bind-Silent (load p) _ (load-Silent p) (λ v s. refl)

  touch-Silent : (o : Option Address) → Silent (touch o)
  touch-Silent none = λ s. refl
  touch-Silent (some p) = bind-Silent (load p) (λ _ s. done tt s) (load-Silent p) (λ u s. refl)

  list_del-Silent : (p : Address) → Silent (list_del p)
  list_del-Silent p = bind-Silent (touch (some p)) _ (touch-Silent (some p)) λ _.
      bind-Silent nodes _ (λ s. refl)
        λ ps. bind-Silent (touch (prev_in p ps)) _ (touch-Silent (prev_in p ps)) (λ _.
          bind-Silent (touch (next_in p ps)) (λ _. unlink p) (touch-Silent (next_in p ps))
            (λ _ s. refl))

  pub list_add_tail-Silent : (p : Address) → Silent (list_add_tail p)
  list_add_tail-Silent p = bind-Silent (touch (some p)) _ (touch-Silent (some p)) λ _.
      bind-Silent nodes _ (λ s. refl)
        (λ ps.
          bind-Silent (touch (last_in ps)) (λ _. link p) (touch-Silent (last_in ps)) (λ _ s. refl))

  next_entry-Silent : (p : Address) → Silent (next_entry p)
  next_entry-Silent p =
      bind-Silent (touch (some p))
        (λ _ s. done (entry_or_null (next_in p (lib.nodes s.gs_user_info_list))) s)
        (touch-Silent (some p)) (λ _ s. refl)

module _ (lib : ListHead) where
  pub set_cart-Silent : (p : Address) (j food : ℕ) → Silent (set_cart lib p j food)
  unfolding set_cart
  set_cart-Silent p j food =
      bind-Silent (load p) _ (load-Silent p)
        (λ u. if-Silent (ltb j max_cart_size) _ _ (store-Silent p _) (λ s. tt))

  pub set_age-Silent : (p : Address) (age : ℕ) → Silent (set_age lib p age)
  unfolding set_age
  set_age-Silent p age = bind-Silent (load p) _ (load-Silent p) (λ u. store-Silent p _)

  pub set_n-Silent : (p : Address) (n : ℕ) → Silent (set_n_cart_items lib p n)
  unfolding set_n_cart_items
  set_n-Silent p n = bind-Silent (load p) _ (load-Silent p) (λ u. store-Silent p _)

  set_username-Silent : (p : Address) (name : Text) → Silent (set_username lib p name)
  unfolding set_username
  set_username-Silent p name = bind-Silent (load p) _ (load-Silent p) λ u.
      bind-Silent (loaded (scnprintf_into max_username_length name u.username)) _ (loaded-Silent _)
        (λ b. store-Silent p _)

  find_from-Silent : (ps : List Address) (name : Text) → Silent (find_from lib ps name)
  unfolding find_from
  find_from-Silent [] name = λ s. refl
  find_from-Silent (p ∷ ps) name = bind-Silent (load p) _ (load-Silent p) λ u.
      bind-Silent (loaded (strcmp u.username name)) _ (loaded-Silent _)
        (λ b. if-Silent b _ _ (λ s. refl) (find_from-Silent ps name))

  get_user_info-Silent : (name : Text) → Silent (get_user_info lib (some name))
  unfolding get_user_info
  get_user_info-Silent name s = find_from-Silent (lib.nodes s.gs_user_info_list) name s

  pub delete_user_info-Silent : (name : Text) → Silent (delete_user_info lib name)
  unfolding delete_user_info
  delete_user_info-Silent name =
      bind-Silent (get_user_info lib (some name)) _ (get_user_info-Silent name) λ p.
        if-Silent (p == null) _ _ (λ s. refl)
          (bind-Silent (list_del p) _ (list_del-Silent p)
            (λ _. bind-Silent (kfree p) (λ _. pure (pos 0)) (kfree-Silent p) (λ _ s. refl)))

  free_from-Silent : (left : ℕ) (p : Address) → Silent (free_from lib left p)
  unfolding free_from
  free_from-Silent zero p = if-Silent (p == null) _ _ (λ s. refl) (λ s. tt)
  free_from-Silent (suc left) p =
      if-Silent (p == null) _ _ (λ s. refl)
        (bind-Silent (next_entry p) _ (next_entry-Silent p) λ tmp.
          bind-Silent (list_del p) _ (list_del-Silent p)
            (λ _. bind-Silent (kfree p) _ (kfree-Silent p) (λ _. free_from-Silent left tmp)))

  pub free_all-Silent : Silent (free_all_user_infos lib)
  unfolding free_all_user_infos
  free_all-Silent =
      bind-Silent nodes _ (λ s. refl)
        (λ ps. free_from-Silent (length ps) (entry_or_null (first_in ps)))

module _ (lib : ListHead) (env : Env lib) where
  kzalloc-Silent : Silent (kzalloc lib env)
  unfolding kzalloc
  kzalloc-Silent s = elim (Bool-cases (env.kzalloc s == null)) [ inl e ↦ rw e | inr e ↦ rw e ]

  fill_cart-Silent : (left j : ℕ) (p : Address) → Silent (fill_cart lib env left j p)
  unfolding fill_cart pick_random_food get_random_u32_below
  fill_cart-Silent zero j p = λ s. refl
  fill_cart-Silent (suc left) j p =
      bind-Silent (pick_random_food lib env) _ (λ s. refl)
        λ food.
          bind-Silent (set_cart lib p j food) _ (set_cart-Silent lib p j food)
            (λ _. fill_cart-Silent left (j + 1) p)

  add_user-Silent : (i : ℕ) (p : Address) → Silent (add_user lib env i p)
  unfolding add_user get_random_u32_below
  add_user-Silent i p = bind-Silent (set_username lib p _) _ (set_username-Silent lib p _) λ _.
      bind-Silent (get_random_u32_below lib env 100) _ (λ s. refl)
        λ age. bind-Silent (set_age lib p (age + 1)) _ (set_age-Silent lib p (age + 1)) λ _.
          bind-Silent (get_random_u32_below lib env (max_cart_size + 1)) _ (λ s. refl)
            λ n. bind-Silent (set_n_cart_items lib p n) _ (set_n-Silent lib p n) λ _.
              bind-Silent (fill_cart lib env (n % 2 ^ 8) 0 p) (λ _. list_add_tail p)
                (fill_cart-Silent (n % 2 ^ 8) 0 p) (λ _. list_add_tail-Silent p)

  pub add_users-Silent : (left i : ℕ) → Silent (add_users lib env left i)
  unfolding add_users
  add_users-Silent zero i = λ s. refl
  add_users-Silent (suc left) i = bind-Silent (kzalloc lib env) _ kzalloc-Silent λ p.
      if-Silent (p == null) _ _ (λ s. refl)
        (bind-Silent (add_user lib env i p) _ (add_user-Silent i p)
          (λ _. add_users-Silent left (i + 1)))
