-- ===== src/DataStructure/UserList/Pointed.antt =====
-- What the writes through the pointer of `update_user` keep.
use linux_kernel_samples.Base.{ℕ, ◌≡◌, ◌%◌, ◌^◌, ◌<◌, ltb, refl, true, some, List, arith}
use linux_kernel_samples.DataStructure.UserList.Text.{Text, same_text}
use linux_kernel_samples.DataStructure.UserList.Memory.{
  Address, UserInfo, Heap, write, has, ListHead, Store, Ends,
}
use linux_kernel_samples.DataStructure.UserList.Users.{
  max_cart_size, set, set_cart, set_age, set_n_cart_items,
}
use linux_kernel_samples.DataStructure.UserList.Spec.{
  name_in, find, replace, find-replace, find_named,
}
use linux_kernel_samples.DataStructure.UserList.Rep.{
  IsList, FoundAt, FoundAt-Hit, FoundAt-replace, Rep-replace,
}
use linux_kernel_samples.DataStructure.UserList.Effects.{same-IsList}

-- `r` is the address of the first user of the name, which is `v`.
pub record Pointed (lib : ListHead) (h0 : Heap) (ps : List Address) (name : Text) (r : Address)
    (us : List UserInfo) (v : UserInfo) (s : Store lib) : Type 0 where
  pub is : IsList lib h0 ps us s
  pub found : FoundAt name ps us r
  pub first : find name us ≡ some v
  pub holds : s.heap r ≡ some v
  pub inside : has r ps ≡ true

module _ (lib : ListHead) {h0 : Heap} {ps : List Address} (name : Text) (r : Address) where
  -- A write through the pointer that keeps the name.
  Pointed-write :
      {us : List UserInfo} {v : UserInfo} {s : Store lib} (w : UserInfo)
      → w.username ≡ v.username
      → Pointed lib h0 ps name r us v s
      → Pointed lib h0 ps name r (replace name w us) w (record s { heap = write s.heap r (some w) })
  Pointed-write {us} {v} {s} w e at =
      let named : same_text (name_in w) name ≡ true = rw e (find_named name us at.first) in
      let hit = FoundAt-Hit name s.heap ps us r v at.is.rep at.found at.first in
      record {
        is = record {
          linked = at.is.linked;
          rep = Rep-replace name s.heap ps us r v w at.is.rep at.found at.first (rw e (hit.ended));
          outside = λ q o. ground (arith, at.is.outside q o, at.inside);
          before = at.is.before;
        };
        found = FoundAt-replace name ps us r w named at.found;
        first = find-replace name v w us named at.first;
        holds = ground arith;
        inside = at.inside;
      }

  pub Pointed-same :
      {us : List UserInfo} {v : UserInfo} {s : Store lib} (s' : Store lib)
      → s'.heap ≡ s.heap
      → s'.gs_user_info_list ≡ s.gs_user_info_list
      → Pointed lib h0 ps name r us v s
      → Pointed lib h0 ps name r us v s'
  Pointed-same s' e f at = record {
    is = same-IsList lib h0 s' e f at.is;
    found = at.found;
    first = at.first;
    holds = rw e (at.holds);
    inside = at.inside;
  }

  pub set_age-Pointed :
      {us : List UserInfo} {v : UserInfo} {s : Store lib} (age : ℕ)
      → Pointed lib h0 ps name r us v s
      → let w : UserInfo = record v { age = age % 2 ^ 8 } in
        Ends (λ _ s'. Pointed lib h0 ps name r (replace name w us) w s') (set_age lib r age s)
  unfolding set_age
  set_age-Pointed age at = rw (at.holds, at.holds) (Pointed-write _ refl at)

  pub set_n-Pointed :
      {us : List UserInfo} {v : UserInfo} {s : Store lib} (n : ℕ)
      → Pointed lib h0 ps name r us v s
      → let w : UserInfo = record v { n_cart_items = n % 2 ^ 8 } in
        Ends
          (λ _ s'. Pointed lib h0 ps name r (replace name w us) w s')
          (set_n_cart_items lib r n s)
  unfolding set_n_cart_items
  set_n-Pointed n at = rw (at.holds, at.holds) (Pointed-write _ refl at)

  pub set_cart-Pointed :
      {us : List UserInfo} {v : UserInfo} {s : Store lib} (j food : ℕ)
      → j < max_cart_size
      → Pointed lib h0 ps name r us v s
      → let w : UserInfo = record v { shopping_cart = set v.shopping_cart j food } in
        Ends (λ _ s'. Pointed lib h0 ps name r (replace name w us) w s') (set_cart lib r j food s)
  unfolding set_cart
  set_cart-Pointed j food lt at =
      let inside : ltb j max_cart_size ≡ true = ground arith in
      rw (at.holds, inside, at.holds) (Pointed-write _ refl at)
