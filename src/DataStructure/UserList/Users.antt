-- ===== src/DataStructure/UserList/Users.antt =====
-- The functions of data_structure/list.c on the list of users, after its constants.
use linux_kernel_samples.Base.{
  ℕ, zero, suc, ◌+◌, ◌-◌, ◌%◌, ◌^◌, String, Option, none, some, List, [], ◌∷◌, ◌++◌, ℤ, pos, negsuc,
  ltb, ◌==◌, if◌then◌else◌,
}
use linux_kernel_samples.DataStructure.UserList.Text.{Text, codes, length, scnprintf}
use linux_kernel_samples.DataStructure.UserList.Buffer.{c_string, strcmp, scnprintf_into}
use linux_kernel_samples.DataStructure.UserList.Memory.{
  Address, null, UserInfo, ListHead, num, text, fault, Cmd, ◌>>=◌, ◌>>◌, pure, pr_info, loaded,
  load, store, kfree, list_del, nodes, next_entry, first_in, entry_or_null,
}

abbrev pub max_username_length : ℕ
max_username_length = 32

abbrev pub max_cart_size : ℕ
max_cart_size = 10

abbrev pub n_user_infos : ℕ
n_user_infos = 5

abbrev pub milk : ℕ
milk = 4

abbrev pub ham : ℕ
ham = 5

abbrev pub n_food_codes : ℕ
n_food_codes = 6

-- -ENOENT
abbrev pub enoent : ℤ
enoent = negsuc 1

-- The table `gs_food_names`, in the order of `enum food_code`.
abbrev pub gs_food_names : List String
gs_food_names = "banana" ∷ "kiwi" ∷ "strawberry" ∷ "bread" ∷ "milk" ∷ "ham" ∷ []

abbrev pub get_elem? : {A : Type 0} → List A → ℕ → Option A
get_elem? [] i = none
get_elem? (x ∷ xs) zero = some x
get_elem? (x ∷ xs) (suc i) = get_elem? xs i

abbrev pub set : {A : Type 0} → List A → ℕ → A → List A
set [] i v = []
set (x ∷ xs) zero v = v ∷ xs
set (x ∷ xs) (suc i) v = x ∷ set xs i v

abbrev name_or_fault : Option String → Option Text
name_or_fault none = none
name_or_fault (some s) = some (codes s)

-- `none` would be a read past the end of the table.
unfoldable pub get_food_name : ℕ → Option Text
get_food_name food =
    if ltb food n_food_codes
    then name_or_fault (get_elem? gs_food_names food)
    else some (codes "unknown")

-- The name of the item that was read.
abbrev pub food_name : Option ℕ → Option Text
food_name none = none
food_name (some food) = get_food_name food

abbrev pub and_name : Option Text → (Text → Option Text) → Option Text
and_name none k = none
and_name (some name) k = k name

-- The text that the loop of `print_shopping_cart` has put into `cart[128]`, with `left` rounds to go.
-- `none` would be a read out of bounds.
unfoldable pub cart_from : ℕ → ℕ → UserInfo → Text → Option Text
cart_from zero i user cart = some cart
cart_from (suc left) i user cart = and_name (food_name (get_elem? user.shopping_cart i)) λ food.
    cart_from left (i + 1) user
      (cart ++ scnprintf (128 - length cart) ((if i == 0 then [] else codes ", ") ++ food))

abbrev pub first_of_list : List Address → Address
first_of_list [] = null
first_of_list (p ∷ ps) = p

abbrev pub last_of_list : List Address → Address
last_of_list [] = null
last_of_list (p ∷ []) = p
last_of_list (p ∷ q ∷ ps) = last_of_list (q ∷ ps)

module _ (lib : ListHead) where
  -- The body of `list_for_each`, over the entries that are left.
  unfoldable pub find_from : List Address → Text → Cmd lib Address
  find_from [] username = pure null
  find_from (p ∷ ps) username = do
    user ← load p
    let rest : Cmd lib Address = find_from ps username
    same ← loaded (strcmp user.username username)
    if same then pure p else rest

  -- `none` is a null `username`.
  unfoldable pub get_user_info : Option Text → Cmd lib Address
  get_user_info none = pure null
  get_user_info (some username) = do ps ← nodes; find_from ps username

  unfoldable pub delete_user_info : Text → Cmd lib ℤ
  delete_user_info username = do
    user ← get_user_info (some username)
    if user == null then pure enoent else do list_del user; kfree user; pure (pos 0)

  -- `list_for_each_entry_safe`, which reads the next entry `tmp` before it frees `user`, from this entry
  -- on; NULL is the head. It is given as many rounds as there are entries, and more would be a fault.
  unfoldable pub free_from : ℕ → Address → Cmd lib (Unit {0})
  free_from zero user = if user == null then pure tt else (λ s. fault)
  free_from (suc left) user =
      let rest : Address → Cmd lib (Unit {0}) = free_from left in
      if user == null
      then pure tt
      else do tmp ← next_entry user; list_del user; kfree user; rest tmp

  unfoldable pub free_all_user_infos : Cmd lib (Unit {0})
  free_all_user_infos = do ps ← nodes; free_from (length ps) (entry_or_null (first_in ps))

  -- `user->shopping_cart[j] = food`
  unfoldable pub set_cart : Address → ℕ → ℕ → Cmd lib (Unit {0})
  set_cart p j food = do
    user ← load p
    if ltb j max_cart_size
        then store p (record user { shopping_cart = set user.shopping_cart j food })
        else (λ s. fault)

  unfoldable pub set_age : Address → ℕ → Cmd lib (Unit {0})
  set_age p age = do user ← load p; store p (record user { age = age % 2 ^ 8 })

  unfoldable pub set_n_cart_items : Address → ℕ → Cmd lib (Unit {0})
  set_n_cart_items p n = do user ← load p; store p (record user { n_cart_items = n % 2 ^ 8 })

  unfoldable pub set_username : Address → Text → Cmd lib (Unit {0})
  set_username p name = do
    user ← load p
    buffer ← loaded (scnprintf_into max_username_length name user.username)
    store p (record user { username = buffer })

  abbrev cart_line : UserInfo → Option Text → Cmd lib (Unit {0})
  cart_line user none = λ s. fault
  cart_line user (some cart) = pr_info "  cart(%u/%u): %s" (
      num user.n_cart_items
      ∷ num max_cart_size
      ∷ text (if user.n_cart_items == 0 then codes "(empty)" else cart)
      ∷ [])

  unfoldable pub print_shopping_cart : UserInfo → Cmd lib (Unit {0})
  print_shopping_cart user = cart_line user (cart_from user.n_cart_items 0 user [])

  -- The body of `list_for_each_entry` in `print_all_user_infos`.
  unfoldable pub print_from : List Address → Cmd lib (Unit {0})
  print_from [] = pure tt
  print_from (p ∷ ps) = do
    user ← load p
    name ← loaded (c_string user.username)
    pr_info "username=%s age=%u" (text name ∷ num user.age ∷ [])
    print_shopping_cart user
    print_from ps

  -- `print_all_user_infos` from its test of `list_empty` on.
  unfoldable pub print_users : List Address → Cmd lib (Unit {0})
  print_users [] = pure tt
  print_users (p ∷ ps) = do
    first ← load (first_of_list (p ∷ ps))
    last ← load (last_of_list (p ∷ ps))
    name ← loaded (c_string first.username)
    last_name ← loaded (c_string last.username)
    pr_info "first=%s last=%s" (text name ∷ text last_name ∷ [])
    print_from (p ∷ ps)

  unfoldable pub print_all_user_infos : Cmd lib (Unit {0})
  print_all_user_infos = do
    ps ← nodes
    pr_info "%zu user infos in the list" (num (length ps) ∷ [])
    print_users ps
