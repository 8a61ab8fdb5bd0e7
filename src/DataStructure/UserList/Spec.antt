-- ===== src/DataStructure/UserList/Spec.antt =====
-- The abstract view of the list of users: a sequence of records, with no addresses.
use linux_kernel_samples.Base.{
  ◌≡◌, refl, ap, Bool, Bool-cases, inl, inr, arith, true, false, Option, none, some, List, [], ◌∷◌,
  if◌then◌else◌,
}
use linux_kernel_samples.DataStructure.UserList.Text.{Text, same_text}
use linux_kernel_samples.DataStructure.UserList.Memory.{UserInfo}
use linux_kernel_samples.DataStructure.UserList.Buffer.{until_nul}

-- The name of a user is the text in its buffer.
abbrev pub name_in : UserInfo → Text
name_in u = until_nul u.username

-- The first user of that name.
abbrev pub find : Text → List UserInfo → Option UserInfo
find name [] = none
find name (u ∷ us) = if same_text (name_in u) name then some u else find name us

abbrev pub is_some : {A : Type 0} → Option A → Bool
is_some none = false
is_some (some a) = true

-- All but the first user of that name.
abbrev pub delete : Text → List UserInfo → List UserInfo
delete name [] = []
delete name (u ∷ us) = if same_text (name_in u) name then us else u ∷ delete name us

-- The first user of that name is replaced.
abbrev pub replace : Text → UserInfo → List UserInfo → List UserInfo
replace name v [] = []
replace name v (u ∷ us) = if same_text (name_in u) name then v ∷ us else u ∷ replace name v us

-- Each of the names in turn.
abbrev pub delete_all : List Text → List UserInfo → List UserInfo
delete_all [] us = us
delete_all (name ∷ names) us = delete_all names (delete name us)

pub delete-none : (name : Text) (us : List UserInfo) → find name us ≡ none → delete name us ≡ us
delete-none name [] e = refl
delete-none name (u ∷ us) e = elim (Bool-cases (same_text (name_in u) name)) [
  | inl hit ↦ absurd (cc (rw hit at e))
  | inr miss ↦ rw miss (ap (λ vs. u ∷ vs) (delete-none name us (rw miss at e)))
]

pub find-replace :
    (name : Text) (v w : UserInfo) (us : List UserInfo)
    → same_text (name_in w) name ≡ true
    → find name us ≡ some v
    → find name (replace name w us) ≡ some w
find-replace name v w [] s e = absurd (cc)
find-replace name v w (u ∷ us) s e = elim (Bool-cases (same_text (name_in u) name)) [
  | inl hit ↦ rw (hit, s)
  | inr miss ↦ rw (miss, miss) (find-replace name v w us s (rw miss at e))
]

pub replace-replace :
    (name : Text) (w x : UserInfo) (us : List UserInfo)
    → same_text (name_in w) name ≡ true
    → replace name x (replace name w us) ≡ replace name x us
replace-replace name w x [] s = refl
replace-replace name w x (u ∷ us) s = elim (Bool-cases (same_text (name_in u) name)) [
  | inl hit ↦ rw (hit, s)
  | inr miss ↦ rw (miss, miss) (ap (λ vs. u ∷ vs) (replace-replace name w x us s))
]

pub find_named :
    (name : Text) (us : List UserInfo) {v : UserInfo}
    → find name us ≡ some v
    → same_text (name_in v) name ≡ true
find_named name [] e = absurd (cc)
find_named name (u ∷ us) e = elim (Bool-cases (same_text (name_in u) name)) [
  | inl hit ↦ let is = rw hit at e in ground (arith, is, hit)
  | inr miss ↦ find_named name us (rw miss at e)
]
