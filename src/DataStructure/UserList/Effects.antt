-- ===== src/DataStructure/UserList/Effects.antt =====
-- What the parts of `list_module_init` after the first loop do to the sequence of users.
use linux_kernel_samples.Base.{
  Option-cases, ◌≡◌, refl, false, inl, inr, some, List, [], ◌∷◌, arith, ◌==◌, ℤ, sym,
}
use linux_kernel_samples.DataStructure.UserList.Text.{Text}
use linux_kernel_samples.DataStructure.UserList.Memory.{
  Address, null, UserInfo, Heap, ListHead, Store, Ends,
}
use linux_kernel_samples.DataStructure.UserList.Memory.Hoare.{bind, mono}
use linux_kernel_samples.DataStructure.UserList.Users.{
  get_user_info, delete_user_info, print_all_user_infos,
}
use linux_kernel_samples.DataStructure.UserList.Init.{look_up, delete_targets}
use linux_kernel_samples.DataStructure.UserList.Spec.{find, delete, delete_all, delete-none}
use linux_kernel_samples.DataStructure.UserList.Rep.{IsList}
use linux_kernel_samples.DataStructure.UserList.Lookup.{
  Looked, Deleted, get_user_info-find, delete_user_info-delete,
}
use linux_kernel_samples.DataStructure.UserList.Listing.{AllUsers, listing, print_all-listing}
use linux_kernel_samples.DataStructure.UserList.Log.{log_lookups, log_deletions}
use linux_kernel_samples.DataStructure.UserList.Silent.{both, delete_user_info-Silent}

module _ (lib : ListHead) (h0 : Heap) where
  -- Another state with the same memory and list.
  pub same-IsList :
      {ps : List Address} {us : List UserInfo} {s : Store lib} (s' : Store lib)
      → s'.heap ≡ s.heap
      → s'.gs_user_info_list ≡ s.gs_user_info_list
      → IsList lib h0 ps us s
      → IsList lib h0 ps us s'
  same-IsList s' e f is = record {
    linked = rw f (is.linked);
    rep = rw e (is.rep);
    outside = λ q o. rw e (is.outside q o);
    before = is.before;
  }

  pub print_all-IsList :
      (ps : List Address) (us : List UserInfo) (s : Store lib)
      → IsList lib h0 ps us s
      → AllUsers us
      → Ends
          (λ _ s'. IsList lib h0 ps us s' × (s'.printed ≡ listing us s.printed))
          (print_all_user_infos lib s)
  print_all-IsList ps us s is all =
      mono lib (λ _ s'. s' ≡ record s { printed = listing us s.printed })
        (λ _ s'. IsList lib h0 ps us s' × (s'.printed ≡ listing us s.printed))
        (print_all_user_infos lib s) (print_all-listing lib s is all)
        λ _ s' e. rw e (same-IsList _ refl refl is, refl)

  pub look_up-IsList :
      (targets : List Text) (ps : List Address) (us : List UserInfo) (s : Store lib)
      → IsList lib h0 ps us s
      → Ends
          (λ _ s'. IsList lib h0 ps us s' × (s'.printed ≡ log_lookups targets us s.printed))
          (look_up lib targets s)
  unfolding look_up
  look_up-IsList [] ps us s is = (is, refl)
  look_up-IsList (name ∷ names) ps us s is =
      bind lib (λ r s'. (s' ≡ s) × Looked s ps (find name us) r)
        (λ _ s'. IsList lib h0 ps us s' × (s'.printed ≡ log_lookups (name ∷ names) us s.printed))
        (get_user_info lib (some name) s) _ (get_user_info-find lib name s is)
        λ r s' (e, found). rw e (elim (Option-cases (find name us)) [
          | inl miss ↦
              rw (rw miss at found, miss)
                (look_up-IsList names ps us _ (same-IsList _ refl refl is))
          | inr (v, hit) ↦
              let at = rw hit at found in
              let real : (r == null) ≡ false = ground (arith, at.ne_null) in
              rw (real, at.holds, hit) (look_up-IsList names ps us _ (same-IsList _ refl refl is))
        ])

  pub delete_targets-IsList :
      (names : List Text) (ps : List Address) (us : List UserInfo) (s : Store lib)
      → IsList lib h0 ps us s
      → Ends
          (λ _ s'.
            ((ps' : List Address) × IsList lib h0 ps' (delete_all names us) s')
            × (s'.printed ≡ log_deletions names us s.printed))
          (delete_targets lib names s)
  unfolding delete_targets
  delete_targets-IsList [] ps us s is = ((ps, is), refl)
  delete_targets-IsList (name ∷ names) ps us s is =
      let P : ℤ → Store lib → Type 0 = Deleted lib h0 ps us name s (find name us) in
      bind lib (λ ret s'. P ret s' × (s'.printed ≡ s.printed))
        (λ _ s'.
          ((ps' : List Address) × IsList lib h0 ps' (delete_all (name ∷ names) us) s')
          × (s'.printed ≡ log_deletions (name ∷ names) us s.printed))
        (delete_user_info lib name s) _
        (both P (λ _ s'. s'.printed ≡ s.printed) (delete_user_info lib name s)
          (delete_user_info-delete lib name s is) (delete_user_info-Silent lib name s))
        λ ret s' (d, quiet). elim (Option-cases (find name us)) [
          | inl miss ↦
              let d' = rw miss at d in
              rw (d'.0, d'.1, delete-none name us miss, miss)
                (delete_targets-IsList names ps us _ (same-IsList _ refl refl is))
          | inr (v, hit) ↦
              let d' = rw hit at d in
              rw (d'.0, hit, sym quiet)
                (delete_targets-IsList names _ (delete name us) _ (same-IsList _ refl refl d'.3))
        ]
