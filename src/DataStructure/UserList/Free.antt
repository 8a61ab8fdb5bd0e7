-- ===== src/DataStructure/UserList/Free.antt =====
-- `free_all_user_infos` gives every node back.
use linux_kernel_samples.Base.{
  ◌≡◌, refl, ◌∙◌, true, false, none, ◌==◌, List, [], ◌∷◌, arith, ==_refl,
}
use linux_kernel_samples.DataStructure.UserList.Memory.{
  Address, null, UserInfo, Heap, write, has, first_in, next_in, entry_or_null, ListHead, Store,
  Ends,
}
use linux_kernel_samples.DataStructure.UserList.Memory.Hoare.{mono}
use linux_kernel_samples.DataStructure.UserList.Users.{free_from, free_all_user_infos}
use linux_kernel_samples.DataStructure.UserList.Rep.{IsList, Rep-write}
use linux_kernel_samples.DataStructure.UserList.Links.{list_del-done}
use linux_kernel_samples.DataStructure.UserList.Text.{length}

-- Unlinking and freeing the first node.
tail-IsList :
    (lib : ListHead) (h0 : Heap) (p : Address) (ps : List Address) (u : UserInfo)
    (us : List UserInfo) (s : Store lib)
    → IsList lib h0 (p ∷ ps) (u ∷ us) s
    → IsList lib h0 ps us (record s {
      gs_user_info_list = lib.list_del p s.gs_user_info_list;
      heap = write s.heap p none;
    })
tail-IsList lib h0 p ps u us s is = record {
  linked =
      lib.nodes-del p s.gs_user_info_list (rw (is.linked) (ground arith))
      ∙ rw (is.linked, ==_refl p);
  rep = Rep-write s.heap ps us p none is.rep.1 is.rep.3;
  outside = λ q e. ground (arith, is.outside q, is.before q);
  before = λ q e. is.before q (ground arith);
}

next-first : (p : Address) (ps : List Address) → next_in p (p ∷ ps) ≡ first_in ps
next-first p ps = rw (==_refl p)

-- As many rounds as there are entries are enough.
free_from-IsList :
    (lib : ListHead) (h0 : Heap) (ps : List Address) (us : List UserInfo) (s : Store lib)
    → IsList lib h0 ps us s
    → Ends
        (λ _ s'. IsList lib h0 [] [] s')
        (free_from lib (length ps) (entry_or_null (first_in ps)) s)
unfolding free_from
free_from-IsList lib h0 [] [] s is = is
free_from-IsList lib h0 [] (u ∷ us) s is = absurd (is.rep)
free_from-IsList lib h0 (p ∷ ps) [] s is = absurd (is.rep)
free_from-IsList lib h0 (p ∷ ps) (u ∷ us) s is =
    let real : (p == null) ≡ false = ground (arith, is.rep.2) in
    let inside : has p (p ∷ ps) ≡ true = rw (==_refl p) in
    let rest = free_from-IsList lib h0 ps us _ (tail-IsList lib h0 p ps u us s is) in
    rw
      (
        real,
        is.rep.0,
        is.linked,
        next-first p ps,
        list_del-done s (p ∷ ps) (u ∷ us) (is.rep) (is.linked) p inside,
        is.rep.0,
      )
      rest

-- From any list of users, `free_all_user_infos` ends without a fault; the list is then empty, and
-- the memory is as it was before the first user was allocated: nothing leaks.
pub free_all-IsEmpty :
    (lib : ListHead) {h0 : Heap} {ps : List Address} {us : List UserInfo} (s : Store lib)
    → IsList lib h0 ps us s
    → Ends
        (λ _ s'. (lib.nodes s'.gs_user_info_list ≡ []) × ((q : Address) → s'.heap q ≡ h0 q))
        (free_all_user_infos lib s)
unfolding free_all_user_infos
free_all-IsEmpty lib {h0} {ps} {us} s is = rw (is.linked) (
    mono lib (λ _ s'. IsList lib h0 [] [] s')
      (λ _ s'. (lib.nodes s'.gs_user_info_list ≡ []) × ((q : Address) → s'.heap q ≡ h0 q))
      (free_from lib (length ps) (entry_or_null (first_in ps)) s)
      (free_from-IsList lib h0 ps us s is) λ _ s' e. (e.linked, λ q. e.outside q refl))
