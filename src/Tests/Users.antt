-- ===== src/Tests/Users.antt =====
-- A list of two users, with lists for the links and a simple allocator.
use linux_kernel_samples.Base.{
  ◌+◌, ◌≡◌, ◌≢◌, refl, ◌≤◌, String, Option, none, some, List, [], ◌∷◌, ◌++◌, arith, ltb,
  if◌then◌else◌,
}
use linux_kernel_samples.DataStructure.UserList.Text.{Text, codes, length}
use linux_kernel_samples.DataStructure.UserList.Memory.{
  Address, null, UserInfo, Heap, write, erase, ListHead, Store, Env, IsSane, Ends, line,
}
use linux_kernel_samples.DataStructure.UserList.Users.{
  get_user_info, delete_user_info, print_all_user_infos, cart_from,
}
use linux_kernel_samples.DataStructure.UserList.Init.{
  add_users, update_user, list_module_init, list_module_exit,
}
use linux_kernel_samples.DataStructure.UserList.Spec.{find}
use linux_kernel_samples.DataStructure.UserList.Rep.{IsList}
use linux_kernel_samples.DataStructure.UserList.Lookup.{
  Looked, Deleted, get_user_info-find, delete_user_info-delete,
}
use linux_kernel_samples.DataStructure.UserList.Building.{IsUser}
use linux_kernel_samples.DataStructure.UserList.Cart.{joined, print_cart-joined}
use linux_kernel_samples.DataStructure.UserList.Listing.{listing, print_all-listing}
use linux_kernel_samples.DataStructure.UserList.Update.{update_named, update_user-update}
use linux_kernel_samples.DataStructure.UserList.Log.{log_update}
use linux_kernel_samples.DataStructure.UserList.Survivors.{Loaded}
use linux_kernel_samples.DataStructure.UserList.Load.{
  list_module_init-Loaded, list_module_exit-IsEmpty,
}
use linux_kernel_samples.DataStructure.UserList.Names.{Numbered, add_users-Numbered}

abbrev links : ListHead
links = record {
  Links = List Address;
  nodes = λ ps. ps;
  empty = [];
  list_add_tail = λ p ps. ps ++ p ∷ [];
  list_del = erase;
  nodes-empty = refl;
  nodes-add_tail = λ p ps e. refl;
  nodes-del = λ p ps e. refl;
}

abbrev if_free : Address → Option UserInfo → Address
if_free p none = p
if_free p (some u) = null

abbrev counting : Env links
counting = record {
  kzalloc = λ s. if_free (s.draws + 1) (s.heap (s.draws + 1));
  get_random_u32_below = λ s n. if ltb s.draws n then s.draws else 0;
}

if_free-none :
    (h : Heap) (p : Address) (o : Option UserInfo)
    → h p ≡ o
    → if_free p o ≢ null
    → h (if_free p o) ≡ none
if_free-none h p none e real = e
if_free-none h p (some u) e real = absurd (real refl)

counting-IsSane : IsSane links counting
counting-IsSane = record {
  fresh = λ s. if_free-none s.heap (s.draws + 1) (s.heap (s.draws + 1)) refl;
  in_range = λ s n pos. ground arith;
}

abbrev free_memory : Heap
free_memory p = none

abbrev fresh_start : Store links
fresh_start = record { heap = free_memory; gs_user_info_list = []; draws = 0; printed = [] }

list_module_init-Loaded_example :
    Ends (Loaded links free_memory []) (list_module_init links counting fresh_start)
list_module_init-Loaded_example =
    list_module_init-Loaded links counting counting-IsSane fresh_start refl

abbrev user_named : String → UserInfo
user_named name = record {
  shopping_cart = 4 ∷ 5 ∷ 0 ∷ 0 ∷ 0 ∷ 0 ∷ 0 ∷ 0 ∷ 0 ∷ 0 ∷ [];
  age = 30;
  n_cart_items = 2;
  username = codes name ++ 0 ∷ [];
}

abbrev ann : UserInfo
ann = user_named "ann"

abbrev bob : UserInfo
bob = user_named "bob"

ann-IsUser : IsUser ann
ann-IsUser = record {
  cart = record { room = refl; foods = grind arith };
  items = omega arith;
  old = omega arith;
  young = omega arith;
}

abbrev two_users : Store links
two_users = record {
  heap = write (write free_memory 7 (some bob)) 3 (some ann);
  gs_user_info_list = 7 ∷ 3 ∷ [];
  draws = 0;
  printed = [];
}

two_users-IsList : IsList links free_memory (7 ∷ 3 ∷ []) (bob ∷ ann ∷ []) two_users
two_users-IsList = record {
  linked = refl;
  rep = (refl, refl, omega arith, (refl, refl, omega arith, tt, refl), refl);
  outside = λ q e. ground arith;
  before = λ q e. refl;
}

get_user_info-find_example :
    Ends
      (λ r s'.
        (s' ≡ two_users) × Looked two_users (7 ∷ 3 ∷ []) (find (codes "ann") (bob ∷ ann ∷ [])) r)
      (get_user_info links (some (codes "ann")) two_users)
get_user_info-find_example = get_user_info-find links (codes "ann") two_users two_users-IsList

delete_user_info-delete_example :
    Ends
      (Deleted links free_memory
        (7 ∷ 3 ∷ [])
        (bob ∷ ann ∷ [])
        (codes "ann")
        two_users
        (find (codes "ann") (bob ∷ ann ∷ [])))
      (delete_user_info links (codes "ann") two_users)
delete_user_info-delete_example =
    delete_user_info-delete links (codes "ann") two_users two_users-IsList

update_user-update_example :
    Ends
      (λ _ s'.
        IsList links free_memory (7 ∷ 3 ∷ []) (update_named (codes "ann") (bob ∷ ann ∷ [])) s'
        × (s'.printed ≡ log_update (find (codes "ann") (bob ∷ ann ∷ [])) []))
      (update_user links (codes "ann") two_users)
update_user-update_example =
    update_user-update links free_memory (codes "ann") (7 ∷ 3 ∷ []) (bob ∷ ann ∷ []) two_users
      two_users-IsList

print_cart-joined_example :
    (t : Text) × (joined 2 0 ann.shopping_cart ≡ some t)
    × (cart_from 2 0 ann [] ≡ some t)
    × (length t ≤ 120)
print_cart-joined_example = print_cart-joined ann ann-IsUser

list_module_exit-IsEmpty_example :
    Ends
      (λ _ s'.
        (s'.gs_user_info_list ≡ [])
        × ((q : Address) → s'.heap q ≡ none)
        × (s'.printed ≡ line "unloaded" [] ∷ []))
      (list_module_exit links two_users)
list_module_exit-IsEmpty_example = list_module_exit-IsEmpty links two_users two_users-IsList

add_users-Numbered_example :
    Ends (Numbered links fresh_start.heap 3 2) (add_users links counting 3 0 fresh_start)
add_users-Numbered_example =
    add_users-Numbered links counting counting-IsSane 3 2 fresh_start (omega arith) (omega arith)
      refl

bob-IsUser : IsUser bob
bob-IsUser = record {
  cart = record { room = refl; foods = grind arith };
  items = omega arith;
  old = omega arith;
  young = omega arith;
}

print_all-listing_example :
    Ends
      (λ _ s'. s' ≡ record two_users { printed = listing (bob ∷ ann ∷ []) [] })
      (print_all_user_infos links two_users)
print_all-listing_example =
    print_all-listing links two_users two_users-IsList (bob-IsUser, (ann-IsUser, tt))
