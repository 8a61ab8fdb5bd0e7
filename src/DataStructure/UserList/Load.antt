-- ===== src/DataStructure/UserList/Load.antt =====
-- `list_module_init` and `list_module_exit` as a whole.
use linux_kernel_samples.Base.{◌≡◌, refl, ◌∙◌, inl, inr, List, [], ◌∷◌, ℤ, pos, ap}
use linux_kernel_samples.DataStructure.UserList.Text.{codes}
use linux_kernel_samples.DataStructure.UserList.Memory.{
  Address, UserInfo, Heap, ListHead, Line, line, Store, Env, IsSane, Ends,
}
use linux_kernel_samples.DataStructure.UserList.Memory.Hoare.{bind, mono}
use linux_kernel_samples.DataStructure.UserList.Users.{
  n_user_infos, print_all_user_infos, free_all_user_infos,
}
use linux_kernel_samples.DataStructure.UserList.Init.{
  add_users, look_up, update_user, delete_targets, use_users, list_module_init, list_module_exit,
}
use linux_kernel_samples.DataStructure.UserList.Spec.{find}
use linux_kernel_samples.DataStructure.UserList.Rep.{IsList}
use linux_kernel_samples.DataStructure.UserList.Free.{free_all-IsEmpty}
use linux_kernel_samples.DataStructure.UserList.Build.{Added, Built, add_users-Built}
use linux_kernel_samples.DataStructure.UserList.Listing.{AllUsers, listing}
use linux_kernel_samples.DataStructure.UserList.Effects.{
  print_all-IsList, look_up-IsList, delete_targets-IsList, same-IsList,
}
use linux_kernel_samples.DataStructure.UserList.Log.{log_lookups, log_update, log_deletions}
use linux_kernel_samples.DataStructure.UserList.Silent.{both, add_users-Silent, free_all-Silent}
use linux_kernel_samples.DataStructure.UserList.Update.{update_named, update_user-update}
use linux_kernel_samples.DataStructure.UserList.Survivors.{
  get_names, delete_names, kept_of, Added-Survivors, Added-AllUsers, updated-IsUser, load_log,
  Loaded,
}

abbrev Used : (lib : ListHead) → Heap → List UserInfo → List Line → ℤ → Store lib → Type 0
Used lib h0 us out ret s =
    (ret ≡ pos 0)
    × ((ps : List Address) × IsList lib h0 ps (kept_of us) s)
    × (s.printed ≡ load_log us out)

module _ (lib : ListHead) {h0 : Heap} where
  use_users-Used :
      (ps : List Address) (us : List UserInfo) (s : Store lib)
      → Added n_user_infos 0 us
      → IsList lib h0 ps us s
      → Ends (Used lib h0 us s.printed) (use_users lib s)
  unfolding use_users
  use_users-Used ps us s added is =
      let Q : ℤ → Store lib → Type 0 = Used lib h0 us s.printed in
      let third = codes "username#3" in
      let later = update_named third us in
      let looked = log_lookups get_names us (listing us s.printed) in
      let changed = log_update (find third us) looked in
      let kept = Added-Survivors us added in
      let all_kept : AllUsers (kept_of us) =
        rw (kept.are)
          (kept.proper.0, (kept.proper.1, (updated-IsUser kept.third kept.proper.2, tt))) in
      bind lib _ Q (print_all_user_infos lib s) _
        (print_all-IsList lib h0 ps us s is (Added-AllUsers n_user_infos 0 us added))
        λ _ s1 (is1, out1).
          bind lib _ Q (look_up lib get_names s1) _ (look_up-IsList lib h0 get_names ps us s1 is1)
            λ _ s2 (is2, out2).
              bind lib _ Q (update_user lib third s2) _
                (update_user-update lib h0 third ps us s2 is2)
                λ _ s3 (is3, out3).
                  bind lib _ Q (delete_targets lib delete_names s3) _
                    (delete_targets-IsList lib h0 delete_names ps later s3 is3)
                    λ _ s4 ((ps', is4), out4).
                      bind lib _ Q (print_all_user_infos lib s4) _
                        (print_all-IsList lib h0 ps' (kept_of us) s4 is4 all_kept)
                        λ _ s5 (is5, out5). (
                          refl,
                          (ps', same-IsList lib h0 _ refl refl is5),
                          ap (λ out. line "loaded" [] ∷ out)
                              (out5
                                ∙ ap (listing (kept_of us)) (
                                    out4
                                    ∙ ap (log_deletions delete_names later) (
                                        out3
                                        ∙ ap (log_update (find third us))
                                            (out2 ∙ ap (log_lookups get_names us) out1)))),
                        )

module _ (lib : ListHead) (env : Env lib) (sane : IsSane lib env) where
  pub empty-IsList :
      (s : Store lib) → lib.nodes s.gs_user_info_list ≡ [] → IsList lib s.heap [] [] s
  empty-IsList s e = record {
    linked = e;
    rep = tt;
    outside = λ q _. refl;
    before = λ q o. absurd (cc);
  }

  -- From an empty list, with an allocator that returns fresh memory or NULL, `list_module_init` ends
  -- without a fault. Either it returns 0, and the list holds the users number 0, 2 and 3 of the five
  -- that it has added, in this order, the last one with age 99 and a cart of milk and ham, all
  -- well-formed; and it has logged the five, the three lookups, the update, the four deletions with
  -- those that failed, the three users that are left and the last line, and nothing else. Or it
  -- returns -ENOMEM, the list is empty, the memory is as it was, and nothing is logged.
  pub list_module_init-Loaded :
      (s : Store lib)
      → lib.nodes s.gs_user_info_list ≡ []
      → Ends (Loaded lib s.heap s.printed) (list_module_init lib env s)
  unfolding list_module_init
  list_module_init-Loaded s e =
      let Q = Loaded lib s.heap s.printed in
      bind lib _ Q (add_users lib env n_user_infos 0 s) _
        (both (Built lib env sane s.heap [] n_user_infos 0) (λ _ s'. s'.printed ≡ s.printed)
          (add_users lib env n_user_infos 0 s)
          (add_users-Built lib env sane n_user_infos 0 [] [] s (empty-IsList s e))
          (add_users-Silent lib env n_user_infos 0 s))
        λ ret s1 (built, quiet). elim built [
          | inl (z, ps, us, is, added) ↦ rw z (
              mono lib (Used lib s.heap us s1.printed) Q (use_users lib s1)
                (use_users-Used lib ps us s1 added is)
                λ ret s2 (z2, is2, out2).
                  inl (z2, us, added, is2, Added-Survivors us added, out2 ∙ ap (load_log us) quiet))
          | inr (z, ps, us, is) ↦ rw z (
              bind lib _ Q (free_all_user_infos lib s1) _
                (both _ (λ _ s'. s'.printed ≡ s1.printed) (free_all_user_infos lib s1)
                  (free_all-IsEmpty lib s1 is) (free_all-Silent lib s1))
                λ _ s2 ((none_left, same), still). inr (refl, none_left, same, still ∙ quiet))
        ]

module _ (lib : ListHead) where
  -- From any list of users, `list_module_exit` ends without a fault; it empties the list, gives all
  -- its memory back, and logs one line.
  pub list_module_exit-IsEmpty :
      {h0 : Heap} {ps : List Address} {us : List UserInfo} (s : Store lib)
      → IsList lib h0 ps us s
      → Ends
          (λ _ s'.
            (lib.nodes s'.gs_user_info_list ≡ [])
            × ((q : Address) → s'.heap q ≡ h0 q)
            × (s'.printed ≡ line "unloaded" [] ∷ s.printed))
          (list_module_exit lib s)
  unfolding list_module_exit
  list_module_exit-IsEmpty {h0} s is =
      bind lib _
        (λ _ s'.
          (lib.nodes s'.gs_user_info_list ≡ [])
          × ((q : Address) → s'.heap q ≡ h0 q)
          × (s'.printed ≡ line "unloaded" [] ∷ s.printed))
        (free_all_user_infos lib s) _
        (both _ (λ _ s'. s'.printed ≡ s.printed) (free_all_user_infos lib s)
          (free_all-IsEmpty lib s is) (free_all-Silent lib s))
        λ _ s1 ((none_left, same), quiet).
          (none_left, same, ap (λ out. line "unloaded" [] ∷ out) quiet)
