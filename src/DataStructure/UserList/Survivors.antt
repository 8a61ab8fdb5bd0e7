-- ===== src/DataStructure/UserList/Survivors.antt =====
-- Which users a load of data_structure/list.c leaves in the list, and what it logs.
use linux_kernel_samples.Base.{ℕ, zero, suc, ◌+◌, ◌≡◌, ◌∙◌, ◌⊎◌, List, [], ◌∷◌, ℤ, pos, arith}
use linux_kernel_samples.Kernel.{enomem}
use linux_kernel_samples.DataStructure.UserList.Text.{Text, codes, same_text, decimal}
use linux_kernel_samples.DataStructure.UserList.Memory.{
  Address, UserInfo, Heap, ListHead, Line, line, Store,
}
use linux_kernel_samples.DataStructure.UserList.Users.{n_user_infos, milk, ham, set}
use linux_kernel_samples.DataStructure.UserList.Spec.{name_in, find, delete_all}
use linux_kernel_samples.DataStructure.UserList.Rep.{IsList}
use linux_kernel_samples.DataStructure.UserList.Building.{IsUser, set-IsCart}
use linux_kernel_samples.DataStructure.UserList.Build.{Added}
use linux_kernel_samples.DataStructure.UserList.Listing.{AllUsers, listing}
use linux_kernel_samples.DataStructure.UserList.Update.{updated, update_named}
use linux_kernel_samples.DataStructure.UserList.Log.{log_lookups, log_update, log_deletions}

abbrev pub get_names : List Text
get_names = codes "username#2" ∷ codes "username#4" ∷ codes "nobody" ∷ []

abbrev pub delete_names : List Text
delete_names = codes "username#1" ∷ codes "username#1" ∷ codes "username#4" ∷ codes "nobody" ∷ []

-- The sequence of users when the load is over.
abbrev pub kept_of : List UserInfo → List UserInfo
kept_of us = delete_all delete_names (update_named (codes "username#3") us)

-- What a load logs when it has added these users: the listing, the lookups, the update, the
-- deletions, the listing of those that are left, and the last line.
abbrev pub load_log : List UserInfo → List Line → List Line
load_log us out =
    let third = codes "username#3" in
    let looked = log_lookups get_names us (listing us out) in
    let changed = log_update (find third us) looked in
    line "loaded" []
    ∷ listing (kept_of us) (log_deletions delete_names (update_named third us) changed)

-- The three users that are left: numbers 0, 2 and 3, the last one updated.
pub record Survivors (us : List UserInfo) : Type 0 where
  pub first : UserInfo
  pub second : UserInfo
  pub third : UserInfo
  pub are : us ≡ first ∷ second ∷ updated third ∷ []
  pub names :
      (name_in first ≡ codes "username#0")
      × (name_in second ≡ codes "username#2")
      × (name_in third ≡ codes "username#3")
  pub proper : IsUser first × IsUser second × IsUser third

pub Added-Survivors : (us : List UserInfo) → Added n_user_infos 0 us → Survivors (kept_of us)
unfolding same_text decimal
Added-Survivors [] a = absurd a
Added-Survivors (u0 ∷ []) a = absurd a.2
Added-Survivors (u0 ∷ u1 ∷ []) a = absurd a.2.2
Added-Survivors (u0 ∷ u1 ∷ u2 ∷ []) a = absurd a.2.2.2
Added-Survivors (u0 ∷ u1 ∷ u2 ∷ u3 ∷ []) a = absurd a.2.2.2.2
Added-Survivors (u0 ∷ u1 ∷ u2 ∷ u3 ∷ u4 ∷ x ∷ us) a = absurd a.2.2.2.2.2
Added-Survivors (u0 ∷ u1 ∷ u2 ∷ u3 ∷ u4 ∷ [])
      (n0, ok0, (n1, ok1, (n2, ok2, (n3, ok3, (n4, ok4, _))))) =
    record {
      first = u0;
      second = u2;
      third = u3;
      are = simp (n0, n1, n2, n3, n4);
      names = (n0, n2, n3);
      proper = (ok0, ok2, ok3);
    }

pub Added-AllUsers : (left i : ℕ) (us : List UserInfo) → Added left i us → AllUsers us
Added-AllUsers zero i [] a = tt
Added-AllUsers zero i (u ∷ us) a = absurd a
Added-AllUsers (suc left) i [] a = absurd a
Added-AllUsers (suc left) i (u ∷ us) a = (a.1, Added-AllUsers left (i + 1) us a.2)

pub updated-IsUser : (u : UserInfo) → IsUser u → IsUser (updated u)
updated-IsUser u ok =
    let one = set-IsCart u.shopping_cart 0 milk (omega arith) ok.cart.foods in
    let two = set-IsCart (set u.shopping_cart 0 milk) 1 ham (omega arith) one.1 in
    record {
      cart = record { room = two.0 ∙ one.0 ∙ ok.cart.room; foods = two.1 };
      items = omega arith;
      old = omega arith;
      young = omega arith;
    }

-- What a load leaves behind, with what was logged before it: three users, or after a failed
-- allocation nothing at all.
abbrev pub Loaded : (lib : ListHead) → Heap → List Line → ℤ → Store lib → Type 0
Loaded lib h0 out ret s =
    ((ret ≡ pos 0)
      × (added : List UserInfo) × Added n_user_infos 0 added
      × ((ps : List Address) × IsList lib h0 ps (kept_of added) s)
      × Survivors (kept_of added)
      × (s.printed ≡ load_log added out))
    ⊎ ((ret ≡ enomem)
        × (lib.nodes s.gs_user_info_list ≡ [])
        × ((q : Address) → s.heap q ≡ h0 q)
        × (s.printed ≡ out))
