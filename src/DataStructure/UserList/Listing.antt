-- ===== src/DataStructure/UserList/Listing.antt =====
-- `print_all_user_infos` logs the listing of the sequence of users.
use linux_kernel_samples.Base.{
  ◌≡◌, refl, true, Option, none, some, List, [], ◌∷◌, arith, ◌==◌, if◌then◌else◌,
}
use linux_kernel_samples.DataStructure.UserList.Text.{Text, codes, length}
use linux_kernel_samples.DataStructure.UserList.Buffer.{has_nul, c_string-until_nul}
use linux_kernel_samples.DataStructure.UserList.Memory.{
  Address, UserInfo, Heap, ListHead, num, text, Line, line, Store, Ends,
}
use linux_kernel_samples.DataStructure.UserList.Users.{
  max_cart_size, print_shopping_cart, print_from, print_users, last_of_list, print_all_user_infos,
}
use linux_kernel_samples.DataStructure.UserList.Spec.{name_in}
use linux_kernel_samples.DataStructure.UserList.Rep.{Rep, IsList}
use linux_kernel_samples.DataStructure.UserList.Building.{IsUser}
use linux_kernel_samples.DataStructure.UserList.Cart.{joined, print_cart-joined}

abbrev pub AllUsers : List UserInfo → Type 0
AllUsers [] = Unit
AllUsers (u ∷ us) = IsUser u × AllUsers us

abbrev whole : Option Text → Text
whole none = []
whole (some t) = t

abbrev cart_text : UserInfo → Text
cart_text u =
    if u.n_cart_items == 0 then codes "(empty)" else whole (joined u.n_cart_items 0 u.shopping_cart)

-- The two lines of a user, before those that are logged already; the newest first.
abbrev list_user : UserInfo → List Line → List Line
list_user u out =
    line "  cart(%u/%u): %s" (num u.n_cart_items ∷ num max_cart_size ∷ text (cart_text u) ∷ [])
    ∷ line "username=%s age=%u" (text (name_in u) ∷ num u.age ∷ [])
    ∷ out

abbrev list_users : List UserInfo → List Line → List Line
list_users [] out = out
list_users (u ∷ us) out = list_users us (list_user u out)

abbrev last_user : UserInfo → List UserInfo → UserInfo
last_user u [] = u
last_user u (v ∷ us) = last_user v us

-- The names of the first and of the last user, and then all users.
abbrev list_ends : List UserInfo → List Line → List Line
list_ends [] out = out
list_ends (u ∷ us) out =
    list_users (u ∷ us)
      (line "first=%s last=%s" (text (name_in u) ∷ text (name_in (last_user u us)) ∷ []) ∷ out)

abbrev pub listing : List UserInfo → List Line → List Line
listing us out = list_ends us (line "%zu user infos in the list" (num (length us) ∷ []) ∷ out)

last-user :
    (h : Heap) (p : Address) (ps : List Address) (u : UserInfo) (us : List UserInfo)
    → Rep h (p ∷ ps) (u ∷ us)
    → (h (last_of_list (p ∷ ps)) ≡ some (last_user u us))
      × (has_nul (last_user u us).username ≡ true)
last-user h p [] u [] rep = (rep.0, rep.4)
last-user h p [] u (v ∷ us) rep = absurd rep.3
last-user h p (q ∷ ps) u [] rep = absurd rep.3
last-user h p (q ∷ ps) u (v ∷ us) rep = last-user h q ps v us rep.3

length-Rep :
    (h : Heap) (ps : List Address) (us : List UserInfo) → Rep h ps us → length ps ≡ length us
length-Rep h [] [] rep = refl
length-Rep h [] (u ∷ us) rep = absurd rep
length-Rep h (p ∷ ps) [] rep = absurd rep
length-Rep h (p ∷ ps) (u ∷ us) rep = omega (arith, length-Rep h ps us rep.3)

module _ (lib : ListHead) where
  print_from-list_users :
      (ps : List Address) (us : List UserInfo) (s : Store lib)
      → Rep s.heap ps us
      → AllUsers us
      → Ends (λ _ s'. s' ≡ record s { printed = list_users us s.printed }) (print_from lib ps s)
  unfolding print_from print_shopping_cart
  print_from-list_users [] [] s rep all = refl
  print_from-list_users [] (u ∷ us) s rep all = absurd rep
  print_from-list_users (p ∷ ps) [] s rep all = absurd rep
  print_from-list_users (p ∷ ps) (u ∷ us) s rep all =
      let (t, spec, code, _) = print_cart-joined u all.0 in
      rw (rep.0, c_string-until_nul u.username rep.4, code, spec)
        (print_from-list_users ps us _ rep.3 all.1)

  print_users-list_ends :
      (ps : List Address) (us : List UserInfo) (s : Store lib)
      → Rep s.heap ps us
      → AllUsers us
      → Ends (λ _ s'. s' ≡ record s { printed = list_ends us s.printed }) (print_users lib ps s)
  unfolding print_users
  print_users-list_ends [] [] s rep all = refl
  print_users-list_ends [] (u ∷ us) s rep all = absurd rep
  print_users-list_ends (p ∷ ps) [] s rep all = absurd rep
  print_users-list_ends (p ∷ ps) (u ∷ us) s rep all =
      let last = last-user s.heap p ps u us rep in
      rw
        (
          rep.0,
          last.0,
          c_string-until_nul u.username rep.4,
          c_string-until_nul (last_user u us).username last.1,
        )
        (print_from-list_users (p ∷ ps) (u ∷ us) _ rep all)

  -- On a list of well-formed users, `print_all_user_infos` ends without a fault. It logs the number of
  -- users, the names of the first and of the last one if there are any, and then each user with its
  -- name, its age and the names of all the items of its cart; it changes nothing else.
  pub print_all-listing :
      {h0 : Heap} {ps : List Address} {us : List UserInfo} (s : Store lib)
      → IsList lib h0 ps us s
      → AllUsers us
      → Ends (λ _ s'. s' ≡ record s { printed = listing us s.printed }) (print_all_user_infos lib s)
  unfolding print_all_user_infos
  print_all-listing {ps = ps} {us = us} s is all =
      rw (is.linked, length-Rep s.heap ps us is.rep) (print_users-list_ends ps us _ is.rep all)
