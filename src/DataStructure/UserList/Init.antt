-- ===== src/DataStructure/UserList/Init.antt =====
-- `list_module_init` and `list_module_exit` of data_structure/list.c.
use linux_kernel_samples.Base.{
  ℕ, zero, suc, ◌+◌, ◌%◌, ◌^◌, some, List, [], ◌∷◌, ◌++◌, ℤ, pos, ◌==◌, if◌then◌else◌, is_zero,
}
use linux_kernel_samples.Kernel.{enomem}
use linux_kernel_samples.DataStructure.UserList.Text.{Text, codes, decimal}
use linux_kernel_samples.DataStructure.UserList.Memory.{
  Address, null, UserInfo, write, ListHead, num, text, error, Env, done, Cmd, ◌>>=◌, ◌>>◌, pure,
  pr_info, load, list_add_tail,
}
use linux_kernel_samples.DataStructure.UserList.Users.{
  max_username_length, max_cart_size, n_user_infos, milk, ham, n_food_codes, get_user_info,
  delete_user_info, free_all_user_infos, set_cart, set_age, set_n_cart_items, set_username,
  print_all_user_infos,
}

-- `username#<i>`
abbrev pub name_of : ℕ → Text
name_of i = codes "username#" ++ decimal i

abbrev zeros : ℕ → List ℕ
zeros zero = []
zeros (suc n) = 0 ∷ zeros n

-- What `kzalloc` leaves in a new object.
abbrev pub zeroed : UserInfo
zeroed = record {
  shopping_cart = 0 ∷ 0 ∷ 0 ∷ 0 ∷ 0 ∷ 0 ∷ 0 ∷ 0 ∷ 0 ∷ 0 ∷ [];
  age = 0;
  n_cart_items = 0;
  username = zeros max_username_length;
}

module _ (lib : ListHead) where
  unfoldable pub look_up : List Text → Cmd lib (Unit {0})
  look_up [] = pure tt
  look_up (target ∷ targets) = do
    let rest : Cmd lib (Unit {0}) = look_up targets
    user ← get_user_info lib (some target)
    if user == null then (pr_info "'%s' is not in the list" (text target ∷ []) >> rest) else do
      u ← load user
      pr_info "'%s' is in the list and is %u years old" (text target ∷ num u.age ∷ [])
      rest

  -- The writes of the update, from `user->age = 99` on.
  unfoldable pub write_update : Address → Cmd lib (Unit {0})
  write_update user = do
    set_age lib user 99
    u ← load user
    pr_info "username#3 is now %u years old" (num u.age ∷ [])
    set_cart lib user 0 milk
    set_cart lib user 1 ham
    set_n_cart_items lib user 2
    pr_info "replaced the cart of username#3 with milk and ham" []

  unfoldable pub update_user : Text → Cmd lib (Unit {0})
  update_user target = do
    user ← get_user_info lib (some target)
    if user == null then pure tt else do
      u ← load user
      pr_info "username#3 is %u years old, changing the age to 99" (num u.age ∷ [])
      write_update user

  unfoldable pub delete_targets : List Text → Cmd lib (Unit {0})
  delete_targets [] = pure tt
  delete_targets (target ∷ targets) = do
    let rest : Cmd lib (Unit {0}) = delete_targets targets
    ret ← delete_user_info lib target
    if is_zero ret
        then (pr_info "deleted '%s'" (text target ∷ []) >> rest)
        else do pr_info "there is no '%s' to delete (%pe)" (text target ∷ error ret ∷ []); rest

  -- After the users have been added.
  unfoldable pub use_users : Cmd lib ℤ
  use_users = do
    print_all_user_infos lib
    look_up (codes "username#2" ∷ codes "username#4" ∷ codes "nobody" ∷ [])
    update_user (codes "username#3")
    delete_targets
        (codes "username#1" ∷ codes "username#1" ∷ codes "username#4" ∷ codes "nobody" ∷ [])
    print_all_user_infos lib
    pr_info "loaded" []
    pure (pos 0)

  unfoldable pub list_module_exit : Cmd lib (Unit {0})
  list_module_exit = do free_all_user_infos lib; pr_info "unloaded" []

module _ (lib : ListHead) (env : Env lib) where
  unfoldable pub kzalloc : Cmd lib Address
  kzalloc s =
      let p = env.kzalloc s in
      if p == null
      then done null (record s { draws = s.draws + 1 })
      else done p (record s { draws = s.draws + 1; heap = write s.heap p (some zeroed) })

  unfoldable pub get_random_u32_below : ℕ → Cmd lib ℕ
  get_random_u32_below ceil s =
      done (env.get_random_u32_below s ceil) (record s { draws = s.draws + 1 })

  unfoldable pub pick_random_food : Cmd lib ℕ
  unfolding get_random_u32_below
  pick_random_food = get_random_u32_below n_food_codes

  -- The loop over `j`, with `left` rounds to go.
  unfoldable pub fill_cart : ℕ → ℕ → Address → Cmd lib (Unit {0})
  fill_cart zero j user = pure tt
  fill_cart (suc left) j user = do
    food ← pick_random_food
    set_cart lib user j food
    fill_cart left (j + 1) user

  -- One round of the loop over `i`, after the allocation.
  unfoldable pub add_user : ℕ → Address → Cmd lib (Unit {0})
  add_user i user = do
    set_username lib user (name_of i)
    age ← get_random_u32_below 100
    set_age lib user (age + 1)
    n ← get_random_u32_below (max_cart_size + 1)
    set_n_cart_items lib user n
    fill_cart (n % 2 ^ 8) 0 user
    list_add_tail user

  -- The loop over `i`, with `left` rounds to go; -ENOMEM leaves it for `err_free`.
  unfoldable pub add_users : ℕ → ℕ → Cmd lib ℤ
  add_users zero i = pure (pos 0)
  add_users (suc left) i = do
    user ← kzalloc
    if user == null then pure enomem else do add_user i user; add_users left (i + 1)

  unfoldable pub list_module_init : Cmd lib ℤ
  list_module_init = do
    ret ← add_users n_user_infos 0
    if is_zero ret then use_users lib else do free_all_user_infos lib; pure ret
