-- ===== src/DataStructure/UserList/Lookup.antt =====
-- `get_user_info` and `delete_user_info` refine lookup and deletion in a sequence of users.
use linux_kernel_samples.Base.{
  ◌≡◌, refl, ◌∙◌, true, false, Option, none, some, List, [], ◌∷◌, ℤ, pos, arith, ◌==◌, Bool-cases,
  Option-cases, inl, inr,
}
use linux_kernel_samples.DataStructure.UserList.Text.{Text, same_text}
use linux_kernel_samples.DataStructure.UserList.Buffer.{strcmp-same_text}
use linux_kernel_samples.DataStructure.UserList.Memory.{
  Address, null, UserInfo, Heap, write, has, erase, ListHead, Store, Ends,
}
use linux_kernel_samples.DataStructure.UserList.Memory.Hoare.{bind, mono}
use linux_kernel_samples.DataStructure.UserList.Users.{
  enoent, find_from, get_user_info, delete_user_info,
}
use linux_kernel_samples.DataStructure.UserList.Spec.{name_in, find, delete}
use linux_kernel_samples.DataStructure.UserList.Links.{list_del-done}
use linux_kernel_samples.DataStructure.UserList.Rep.{
  Rep, IsList, FoundAt, FoundAt-none, FoundAt-Hit, Hit, Rep-delete,
}

has-erase_ne :
    (q r : Address) (ps : List Address) → (q == r) ≡ false → has q (erase r ps) ≡ has q ps
has-erase_ne q r [] e = refl
has-erase_ne q r (p ∷ ps) e = ground (arith, has-erase_ne q r ps)

has-of-erase : (q r : Address) (ps : List Address) → has q (erase r ps) ≡ true → has q ps ≡ true
has-of-erase q r [] e = e
has-of-erase q r (p ∷ ps) e = ground (arith, has-of-erase q r ps)

-- The address that a lookup returns: NULL, or that of the user that it found.
abbrev pub Looked : {lib : ListHead} → Store lib → List Address → Option UserInfo → Address → Type 0
Looked s ps none r = r ≡ null
Looked s ps (some u) r = Hit s.heap ps r u

-- What a deletion returns and leaves behind.
abbrev pub Deleted :
    (lib : ListHead)
    → Heap
    → List Address
    → List UserInfo
    → Text
    → Store lib
    → Option UserInfo
    → ℤ
    → Store lib
    → Type 0
Deleted lib h0 ps us name s none ret s' = (ret ≡ enoent) × (s' ≡ s)
Deleted lib h0 ps us name s (some v) ret s' =
    (ret ≡ pos 0)
    × (r : Address) × Hit s.heap ps r v
    × IsList lib h0 (erase r ps) (delete name us) s'

module _ (lib : ListHead) where
  find_from-FoundAt :
      (ps : List Address) (us : List UserInfo) (name : Text) (s : Store lib)
      → Rep s.heap ps us
      → Ends (λ r s'. (s' ≡ s) × FoundAt name ps us r) (find_from lib ps name s)
  unfolding find_from
  find_from-FoundAt [] us name s rep = (refl, refl)
  find_from-FoundAt (p ∷ ps) [] name s rep = absurd rep
  find_from-FoundAt (p ∷ ps) (u ∷ us) name s rep =
      rw (rep.0, strcmp-same_text u.username name rep.4)
        (elim (Bool-cases (same_text (name_in u) name)) [
          | inl hit ↦ rw hit (refl, refl)
          | inr miss ↦ rw miss (find_from-FoundAt ps us name s rep.3)
        ])

  pub get_user_info-FoundAt :
      {h0 : Heap} {ps : List Address} {us : List UserInfo} (name : Text) (s : Store lib)
      → IsList lib h0 ps us s
      → Ends (λ r s'. (s' ≡ s) × FoundAt name ps us r) (get_user_info lib (some name) s)
  unfolding get_user_info
  get_user_info-FoundAt {ps} {us} name s is = rw (is.linked) (find_from-FoundAt ps us name s is.rep)

  pub FoundAt-Looked :
      {h0 : Heap} (name : Text) (ps : List Address) (us : List UserInfo) (r : Address)
      (s : Store lib)
      → IsList lib h0 ps us s
      → FoundAt name ps us r
      → Looked s ps (find name us) r
  FoundAt-Looked name ps us r s is f = elim (Option-cases (find name us)) [
    | inl miss ↦ rw miss (FoundAt-none name ps us r f miss)
    | inr (v, hit) ↦ rw hit (FoundAt-Hit name s.heap ps us r v is.rep f hit)
  ]

  -- `get_user_info` changes nothing. It returns NULL where the sequence has no user of that name, and
  -- else the address of the first one.
  pub get_user_info-find :
      {h0 : Heap} {ps : List Address} {us : List UserInfo} (name : Text) (s : Store lib)
      → IsList lib h0 ps us s
      → Ends (λ r s'. (s' ≡ s) × Looked s ps (find name us) r) (get_user_info lib (some name) s)
  get_user_info-find {ps} {us} name s is =
      mono lib (λ r s'. (s' ≡ s) × FoundAt name ps us r)
        (λ r s'. (s' ≡ s) × Looked s ps (find name us) r) (get_user_info lib (some name) s)
        (get_user_info-FoundAt name s is) λ r s' (e, f). (e, FoundAt-Looked name ps us r s is f)

  unlink :
      (h0 : Heap) (ps : List Address) (us : List UserInfo) (name : Text) (s : Store lib)
      (r : Address) (v : UserInfo)
      → IsList lib h0 ps us s
      → FoundAt name ps us r
      → find name us ≡ some v
      → IsList lib h0 (erase r ps) (delete name us) (record s {
        gs_user_info_list = lib.list_del r s.gs_user_info_list;
        heap = write s.heap r none;
      })
  unlink h0 ps us name s r v is f hit =
      let at = FoundAt-Hit name s.heap ps us r v is.rep f hit in
      record {
        linked = lib.nodes-del r s.gs_user_info_list (rw (is.linked) (at.inside)) ∙ rw (is.linked);
        rep = Rep-delete name s.heap ps us r v is.rep f hit;
        outside = λ q e. ground (arith, has-erase_ne q r ps, is.outside q, is.before q, at.inside);
        before = λ q e. is.before q (has-of-erase q r ps e);
      }

  -- `delete_user_info` returns -ENOENT and changes nothing where the sequence has no user of that name.
  -- Else it returns 0, unlinks and frees the first one, and leaves the others in their order.
  pub delete_user_info-delete :
      {h0 : Heap} {ps : List Address} {us : List UserInfo} (name : Text) (s : Store lib)
      → IsList lib h0 ps us s
      → Ends (Deleted lib h0 ps us name s (find name us)) (delete_user_info lib name s)
  unfolding delete_user_info
  delete_user_info-delete {h0} {ps} {us} name s is =
      bind lib (λ r s'. (s' ≡ s) × FoundAt name ps us r)
        (Deleted lib h0 ps us name s (find name us)) (get_user_info lib (some name) s) _
        (get_user_info-FoundAt name s is)
        λ r s' (e, f). rw e (elim (Option-cases (find name us)) [
          | inl miss ↦ rw (miss, FoundAt-none name ps us r f miss) (refl, refl)
          | inr (v, hit) ↦
              let at = FoundAt-Hit name s.heap ps us r v is.rep f hit in
              let real : (r == null) ≡ false = ground (arith, at.ne_null) in
              rw (hit, real, list_del-done s ps us (is.rep) (is.linked) r (at.inside), at.holds)
                (refl, r, at, unlink h0 ps us name s r v is f hit)
        ])
