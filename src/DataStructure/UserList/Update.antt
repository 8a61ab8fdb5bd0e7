-- ===== src/DataStructure/UserList/Update.antt =====
-- The update of one user in `list_module_init`.
use mathlib.Core.Path.{subst}
use linux_kernel_samples.Base.{
  Option-cases, ◌≡◌, refl, ◌∙◌, true, false, inl, inr, Option, none, some, List, [], ◌∷◌, arith,
  ◌==◌, ap,
}
use linux_kernel_samples.DataStructure.UserList.Text.{Text, same_text}
use linux_kernel_samples.DataStructure.UserList.Memory.{
  Address, null, UserInfo, Heap, line, num, ListHead, Store, Ends,
}
use linux_kernel_samples.DataStructure.UserList.Memory.Hoare.{bind}
use linux_kernel_samples.DataStructure.UserList.Users.{
  milk, ham, set, get_user_info, set_cart, set_age, set_n_cart_items,
}
use linux_kernel_samples.DataStructure.UserList.Init.{write_update, update_user}
use linux_kernel_samples.DataStructure.UserList.Spec.{
  name_in, find, replace, replace-replace, find_named,
}
use linux_kernel_samples.DataStructure.UserList.Rep.{IsList, FoundAt, FoundAt-Hit, FoundAt-none}
use linux_kernel_samples.DataStructure.UserList.Lookup.{get_user_info-FoundAt}
use linux_kernel_samples.DataStructure.UserList.Effects.{same-IsList}
use linux_kernel_samples.DataStructure.UserList.Pointed.{
  Pointed, Pointed-same, set_age-Pointed, set_n-Pointed, set_cart-Pointed,
}
use linux_kernel_samples.DataStructure.UserList.Log.{log_writes, log_update}
use linux_kernel_samples.DataStructure.UserList.Silent.{
  both, set_age-Silent, set_cart-Silent, set_n-Silent,
}

-- The age becomes 99, and the cart milk and ham.
abbrev pub updated : UserInfo → UserInfo
updated v = record v {
  shopping_cart = set (set v.shopping_cart 0 milk) 1 ham;
  age = 99;
  n_cart_items = 2;
}

abbrev pub update_found : Text → List UserInfo → Option UserInfo → List UserInfo
update_found name us none = us
update_found name us (some v) = replace name (updated v) us

-- The first user of that name is updated.
abbrev pub update_named : Text → List UserInfo → List UserInfo
update_named name us = update_found name us (find name us)

abbrev aged : UserInfo → UserInfo
aged v = record v { age = 99 }

abbrev with_milk : UserInfo → UserInfo
with_milk v = record (aged v) { shopping_cart = set v.shopping_cart 0 milk }

abbrev with_ham : UserInfo → UserInfo
with_ham v = record (aged v) { shopping_cart = set (set v.shopping_cart 0 milk) 1 ham }

collapse :
    (name : Text) (us : List UserInfo) (v : UserInfo)
    → same_text (name_in v) name ≡ true
    → replace name
        (updated v)
        (replace name (with_ham v) (replace name (with_milk v) (replace name (aged v) us)))
      ≡ replace name (updated v) us
collapse name us v named =
    replace-replace name (with_ham v) (updated v)
      (replace name (with_milk v) (replace name (aged v) us)) named
    ∙ replace-replace name (with_milk v) (updated v) (replace name (aged v) us) named
    ∙ replace-replace name (aged v) (updated v) us named

module _ (lib : ListHead) {h0 : Heap} {ps : List Address} (name : Text) (r : Address) where
  -- The writes together are one update, and two lines.
  writes-updated :
      (us : List UserInfo) (v : UserInfo) (s : Store lib)
      → Pointed lib h0 ps name r us v s
      → Ends
          (λ _ s'.
            IsList lib h0 ps (replace name (updated v) us) s' × (s'.printed ≡ log_writes s.printed))
          (write_update lib r s)
  unfolding write_update
  writes-updated us v s at =
      let Q : Unit {0} → Store lib → Type 0 = λ _ s'.
        IsList lib h0 ps (replace name (updated v) us) s' × (s'.printed ≡ log_writes s.printed) in
      let named = find_named name us at.first in
      bind lib _ Q (set_age lib r 99 s) _
        (both _ (λ _ s'. s'.printed ≡ s.printed) (set_age lib r 99 s)
          (set_age-Pointed lib name r 99 at) (set_age-Silent lib r 99 s))
        λ _ s1 (at1, quiet1). rw (at1.holds) (
          let told = record s1 {
            printed = line "username#3 is now %u years old" (num 99 ∷ []) ∷ s1.printed;
          } in
          bind lib _ Q (set_cart lib r 0 milk told) _
            (both _ (λ _ s'. s'.printed ≡ told.printed) (set_cart lib r 0 milk told)
              (set_cart-Pointed lib name r 0 milk (omega arith)
                (Pointed-same lib name r told refl refl at1))
              (set_cart-Silent lib r 0 milk told))
            λ _ s2 (at2, quiet2).
              bind lib _ Q (set_cart lib r 1 ham s2) _
                (both _ (λ _ s'. s'.printed ≡ s2.printed) (set_cart lib r 1 ham s2)
                  (set_cart-Pointed lib name r 1 ham (omega arith) at2)
                  (set_cart-Silent lib r 1 ham s2))
                λ _ s3 (at3, quiet3).
                  bind lib _ Q (set_n_cart_items lib r 2 s3) _
                    (both _ (λ _ s'. s'.printed ≡ s3.printed) (set_n_cart_items lib r 2 s3)
                      (set_n-Pointed lib name r 2 at3) (set_n-Silent lib r 2 s3))
                    λ _ s4 (at4, quiet4). (
                      same-IsList lib h0 _ refl refl (
                          subst (λ us'. IsList lib h0 ps us' s4) (collapse name us v named) at4.is),
                      ap (λ out. line "replaced the cart of username#3 with milk and ham" [] ∷ out)
                          (quiet4
                            ∙ quiet3
                            ∙ quiet2
                            ∙ ap (λ out. line "username#3 is now %u years old" (num 99 ∷ []) ∷ out)
                                quiet1),
                    ))

module _ (lib : ListHead) (h0 : Heap) where
  -- The update replaces the first user of the name, where there is one, by its updated version, and
  -- changes no other user, no link and no other memory. It logs the old age and the new one, and
  -- then the new cart; without such a user it logs nothing.
  pub update_user-update :
      (name : Text) (ps : List Address) (us : List UserInfo) (s : Store lib)
      → IsList lib h0 ps us s
      → Ends
          (λ _ s'.
            IsList lib h0 ps (update_named name us) s'
            × (s'.printed ≡ log_update (find name us) s.printed))
          (update_user lib name s)
  unfolding update_user
  update_user-update name ps us s is =
      bind lib (λ r s'. (s' ≡ s) × FoundAt name ps us r)
        (λ _ s'.
          IsList lib h0 ps (update_named name us) s'
          × (s'.printed ≡ log_update (find name us) s.printed))
        (get_user_info lib (some name) s) _ (get_user_info-FoundAt lib name s is)
        λ r s' (e, f). rw e (elim (Option-cases (find name us)) [
          | inl miss ↦ rw (FoundAt-none name ps us r f miss, miss) (is, refl)
          | inr (v, hit) ↦
              let at = FoundAt-Hit name s.heap ps us r v is.rep f hit in
              let real : (r == null) ≡ false = ground (arith, at.ne_null) in
              rw (real, at.holds, hit)
                (writes-updated lib name r us v _ (
                  Pointed-same lib name r _ refl refl (record {
                    is = is;
                    found = f;
                    first = hit;
                    holds = at.holds;
                    inside = at.inside;
                  })))
        ])
