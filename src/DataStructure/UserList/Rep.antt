-- ===== src/DataStructure/UserList/Rep.antt =====
-- How the memory represents a sequence of users.
use linux_kernel_samples.Base.{
  ◌≡◌, ◌≢◌, refl, true, false, Option, none, some, List, [], ◌∷◌, arith, ◌==◌, ==_refl,
  if◌then◌else◌, Bool-cases, inl, inr,
}
use linux_kernel_samples.DataStructure.UserList.Text.{Text, same_text}
use linux_kernel_samples.DataStructure.UserList.Buffer.{has_nul}
use linux_kernel_samples.DataStructure.UserList.Memory.{
  Address, null, UserInfo, Heap, write, has, erase, ListHead, Store,
}
use linux_kernel_samples.DataStructure.UserList.Spec.{name_in, find, delete, replace}

-- The addresses `ps` are distinct and hold the users `us`, in this order, each with a NUL in the buffer
-- of its name.
abbrev pub Rep : Heap → List Address → List UserInfo → Type 0
Rep h [] [] = Unit
Rep h [] (u ∷ us) = ⊥
Rep h (p ∷ ps) [] = ⊥
Rep h (p ∷ ps) (u ∷ us) =
    (h p ≡ some u) × (has p ps ≡ false) × (p ≢ null) × Rep h ps us × (has_nul u.username ≡ true)

-- The list links the nodes `ps`, which hold `us`; memory outside them is as in `h0`, where they were
-- free.
pub record IsList (lib : ListHead) (h0 : Heap) (ps : List Address) (us : List UserInfo)
    (s : Store lib) : Type 0 where
  pub linked : lib.nodes s.gs_user_info_list ≡ ps
  pub rep : Rep s.heap ps us
  pub outside : (q : Address) → has q ps ≡ false → s.heap q ≡ h0 q
  pub before : (q : Address) → has q ps ≡ true → h0 q ≡ none

-- The address `r` is that of the first user of the name, or NULL.
abbrev pub FoundAt : Text → List Address → List UserInfo → Address → Type 0
FoundAt name [] us r = r ≡ null
FoundAt name (p ∷ ps) [] r = ⊥
FoundAt name (p ∷ ps) (u ∷ us) r =
    if same_text (name_in u) name then r ≡ p else FoundAt name ps us r

pub Rep-frame :
    (h h' : Heap) (ps : List Address) (us : List UserInfo)
    → ((q : Address) → has q ps ≡ true → h' q ≡ h q)
    → Rep h ps us
    → Rep h' ps us
Rep-frame h h' [] [] same r = tt
Rep-frame h h' [] (u ∷ us) same r = r
Rep-frame h h' (p ∷ ps) [] same r = r
Rep-frame h h' (p ∷ ps) (u ∷ us) same r =
    (ground (arith, same p), r.1, r.2, Rep-frame h h' ps us (λ q e. same q (ground arith)) r.3, r.4)

pub Rep-write :
    (h : Heap) (ps : List Address) (us : List UserInfo) (p : Address) (c : Option UserInfo)
    → has p ps ≡ false
    → Rep h ps us
    → Rep (write h p c) ps us
Rep-write h ps us p c out = Rep-frame h (write h p c) ps us (λ q e. ground arith)

pub FoundAt-none :
    (name : Text) (ps : List Address) (us : List UserInfo) (r : Address)
    → FoundAt name ps us r
    → find name us ≡ none
    → r ≡ null
FoundAt-none name [] us r f e = f
FoundAt-none name (p ∷ ps) [] r f e = absurd f
FoundAt-none name (p ∷ ps) (u ∷ us) r f e = elim (Bool-cases (same_text (name_in u) name)) [
  | inl hit ↦ absurd (cc (rw hit at e))
  | inr miss ↦ FoundAt-none name ps us r (rw miss at f) (rw miss at e)
]

-- What is known of the address of a user that was found.
pub record Hit (h : Heap) (ps : List Address) (r : Address) (v : UserInfo) : Type 0 where
  pub inside : has r ps ≡ true
  pub holds : h r ≡ some v
  pub ne_null : r ≢ null
  pub ended : has_nul v.username ≡ true

pub FoundAt-Hit :
    (name : Text) (h : Heap) (ps : List Address) (us : List UserInfo) (r : Address) (v : UserInfo)
    → Rep h ps us
    → FoundAt name ps us r
    → find name us ≡ some v
    → Hit h ps r v
FoundAt-Hit name h [] [] r v rep f e = absurd (cc)
FoundAt-Hit name h [] (u ∷ us) r v rep f e = absurd rep
FoundAt-Hit name h (p ∷ ps) [] r v rep f e = absurd rep
FoundAt-Hit name h (p ∷ ps) (u ∷ us) r v rep f e = elim (Bool-cases (same_text (name_in u) name)) [
  | inl hit ↦ let at : r ≡ p = rw hit at f in let is : some u ≡ some v = rw hit at e in ground arith
  | inr miss ↦
      let rest = FoundAt-Hit name h ps us r v rep.3 (rw miss at f) (rw miss at e) in
      record {
        inside = rw (rest.inside) (ground arith);
        holds = rest.holds;
        ne_null = rest.ne_null;
        ended = rest.ended;
      }
]

not-has-erase : (p r : Address) (ps : List Address) → has p ps ≡ false → has p (erase r ps) ≡ false
not-has-erase p r [] h = refl
not-has-erase p r (q ∷ ps) h = ground (arith, not-has-erase p r ps)

-- Freeing and unlinking the first user of a name deletes it from the sequence.
pub Rep-delete :
    (name : Text) (h : Heap) (ps : List Address) (us : List UserInfo) (r : Address) (v : UserInfo)
    → Rep h ps us
    → FoundAt name ps us r
    → find name us ≡ some v
    → Rep (write h r none) (erase r ps) (delete name us)
Rep-delete name h [] [] r v rep f e = absurd (cc)
Rep-delete name h [] (u ∷ us) r v rep f e = absurd rep
Rep-delete name h (p ∷ ps) [] r v rep f e = absurd rep
Rep-delete name h (p ∷ ps) (u ∷ us) r v rep f e = elim (Bool-cases (same_text (name_in u) name)) [
  | inl hit ↦
      let at : r ≡ p = rw hit at f in rw (hit, at, ==_refl p) (Rep-write h ps us p none rep.1 rep.3)
  | inr miss ↦
      let f' : FoundAt name ps us r = rw miss at f in
      let e' : find name us ≡ some v = rw miss at e in
      let rest = FoundAt-Hit name h ps us r v rep.3 f' e' in
      let apart : (r == p) ≡ false = ground (arith, rest.inside, rep.1) in
      rw (miss, apart)
        (
          ground (arith, rep.0),
          not-has-erase p r ps rep.1,
          rep.2,
          Rep-delete name h ps us r v rep.3 f' e',
          rep.4,
        )
]

-- Writing the first user of a name replaces it in the sequence.
pub Rep-replace :
    (name : Text) (h : Heap) (ps : List Address) (us : List UserInfo) (r : Address) (v w : UserInfo)
    → Rep h ps us
    → FoundAt name ps us r
    → find name us ≡ some v
    → has_nul w.username ≡ true
    → Rep (write h r (some w)) ps (replace name w us)
Rep-replace name h [] [] r v w rep f e z = absurd (cc)
Rep-replace name h [] (u ∷ us) r v w rep f e z = absurd rep
Rep-replace name h (p ∷ ps) [] r v w rep f e z = absurd rep
Rep-replace name h (p ∷ ps) (u ∷ us) r v w rep f e z =
    elim (Bool-cases (same_text (name_in u) name)) [
      | inl hit ↦
          let at : r ≡ p = rw hit at f in
          rw hit (ground arith, rep.1, rep.2, Rep-write h ps us r (some w) (rw at (rep.1)) rep.3, z)
      | inr miss ↦
          let f' : FoundAt name ps us r = rw miss at f in
          let e' : find name us ≡ some v = rw miss at e in
          let rest = FoundAt-Hit name h ps us r v rep.3 f' e' in
          let apart : (r == p) ≡ false = ground (arith, rest.inside, rep.1) in
          rw miss (
            ground (arith, rep.0),
            rep.1,
            rep.2,
            Rep-replace name h ps us r v w rep.3 f' e' z,
            rep.4,
          )
    ]

pub FoundAt-replace :
    (name : Text) (ps : List Address) (us : List UserInfo) (r : Address) (w : UserInfo)
    → same_text (name_in w) name ≡ true
    → FoundAt name ps us r
    → FoundAt name ps (replace name w us) r
FoundAt-replace name [] us r w s f = f
FoundAt-replace name (p ∷ ps) [] r w s f = f
FoundAt-replace name (p ∷ ps) (u ∷ us) r w s f = elim (Bool-cases (same_text (name_in u) name)) [
  | inl hit ↦ rw (hit, s) (rw hit at f)
  | inr miss ↦ rw (miss, miss) (FoundAt-replace name ps us r w s (rw miss at f))
]
