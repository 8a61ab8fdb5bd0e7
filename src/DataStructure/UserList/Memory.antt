-- ===== src/DataStructure/UserList/Memory.antt =====
-- The memory of the sample: users at addresses, the links between them, and what it logs. The kernel's
-- allocator, random numbers and list primitives are parameters.
pub mod Hoare
use mathlib.Core.List.{map}
use linux_kernel_samples.Base.{
  ℕ, zero, suc, ◌+◌, ◌<◌, ◌≡◌, ◌≢◌, Bool, true, false, ◌||◌, String, Option, none, some, List, [],
  ◌∷◌, ◌++◌, ℤ, ltb, ◌==◌, if◌then◌else◌,
}
use linux_kernel_samples.DataStructure.UserList.Text.{Text}
use linux_kernel_samples.DataStructure.UserList.Buffer.{Bytes}

abbrev pub Address : Type 0
Address = ℕ

abbrev pub null : Address
null = 0

-- `struct user_info`, less the links that `list_head` keeps in it. An `enum food_code` is a number.
pub record UserInfo : Type 0 where
  pub shopping_cart : List ℕ
  pub age : ℕ
  pub n_cart_items : ℕ
  pub username : Bytes

abbrev pub Heap : Type 0
Heap = Address → Option UserInfo

abbrev pub write : Heap → Address → Option UserInfo → Heap
write h p c q = if q == p then c else h q

abbrev pub has : Address → List Address → Bool
has a [] = false
has a (p ∷ ps) = (a == p) || has a ps

abbrev pub erase : Address → List Address → List Address
erase a [] = []
erase a (p ∷ ps) = if a == p then ps else p ∷ erase a ps

-- The entries next to one of a list; `none` is the head.
abbrev pub first_in : List Address → Option Address
first_in [] = none
first_in (p ∷ ps) = some p

abbrev pub next_in : Address → List Address → Option Address
next_in p [] = none
next_in p (q ∷ ps) = if p == q then first_in ps else next_in p ps

abbrev pub prev_in : Address → List Address → Option Address
prev_in p [] = none
prev_in p (q ∷ []) = none
prev_in p (q ∷ r ∷ ps) = if p == r then some q else prev_in p (r ∷ ps)

abbrev pub last_in : List Address → Option Address
last_in [] = none
last_in (p ∷ []) = some p
last_in (p ∷ q ∷ ps) = last_in (q ∷ ps)

-- As an address, where NULL stands for the head.
abbrev pub entry_or_null : Option Address → Address
entry_or_null none = null
entry_or_null (some p) = p

-- <linux/list.h>: `nodes` is the order in which `list_for_each` visits the entries.
pub record ListHead : Type 1 where
  pub Links : Type 0
  pub nodes : Links → List Address
  pub empty : Links
  pub list_add_tail : Address → Links → Links
  pub list_del : Address → Links → Links
  pub nodes-empty : nodes empty ≡ []
  pub nodes-add_tail :
      (p : Address) (l : Links)
      → has p (nodes l) ≡ false
      → nodes (list_add_tail p l) ≡ nodes l ++ p ∷ []
  pub nodes-del :
      (p : Address) (l : Links) → has p (nodes l) ≡ true → nodes (list_del p l) ≡ erase p (nodes l)

pub data Arg : Type 0 where
  num : ℕ → Arg
  text : Text → Arg
  error : ℤ → Arg  -- `%pe` of an `ERR_PTR`

pub data Line : Type 0 where
  line : String → List Arg → Line

pub record Store (lib : ListHead) : Type 0 where
  pub heap : Heap
  pub gs_user_info_list : lib.Links
  pub draws : ℕ  -- the calls of the allocator and of the random generator so far
  pub printed : List Line  -- the newest first

-- The allocator, which returns NULL where it fails, and `get_random_u32_below`.
pub record Env (lib : ListHead) : Type 0 where
  pub kzalloc : Store lib → Address
  pub get_random_u32_below : Store lib → ℕ → ℕ

pub record IsSane (lib : ListHead) (env : Env lib) : Type 0 where
  -- A new object is not in use.
  pub fresh : (s : Store lib) → env.kzalloc s ≢ null → s.heap (env.kzalloc s) ≡ none
  pub in_range : (s : Store lib) (n : ℕ) → 0 < n → env.get_random_u32_below s n < n

-- `fault`: a read or write of memory that is not allocated, or past the end of an array.
pub data Run (lib : ListHead) (A : Type 0) : Type 0 where
  done : A → Store lib → Run lib A
  fault : Run lib A

abbrev pub Cmd : ListHead → Type 0 → Type 0
Cmd lib A = Store lib → Run lib A

module _ {lib : ListHead} where
  abbrev pub and_then : {A B : Type 0} → Run lib A → (A → Cmd lib B) → Run lib B
  and_then (done a s) f = f a s
  and_then fault f = fault

  infixl 5 ◌>>=◌ ◌>>◌
  abbrev pub ◌>>=◌ : {A B : Type 0} → Cmd lib A → (A → Cmd lib B) → Cmd lib B
  ◌>>=◌ m f s = and_then (m s) f

  abbrev pub ◌>>◌ : {A B : Type 0} → Cmd lib A → Cmd lib B → Cmd lib B
  m >> n = m >>= λ _. n

  abbrev pub pure : {A : Type 0} → A → Cmd lib A
  pure a s = done a s

  abbrev pub pr_info : String → List Arg → Cmd lib (Unit {0})
  pr_info format args s = done tt (record s { printed = line format args ∷ s.printed })

  abbrev pub loaded : {A : Type 0} → Option A → Cmd lib A
  loaded none s = fault
  loaded (some a) s = done a s

  -- `*p`
  abbrev pub load : Address → Cmd lib UserInfo
  load p s = loaded (s.heap p) s

  -- `*p = u`, where `p` is allocated.
  abbrev pub store : Address → UserInfo → Cmd lib (Unit {0})
  store p u = load p >> λ s. done tt (record s { heap = write s.heap p (some u) })

  -- `kfree(p)`, where `p` is allocated.
  abbrev pub kfree : Address → Cmd lib (Unit {0})
  kfree p = load p >> λ s. done tt (record s { heap = write s.heap p none })

  abbrev pub nodes : Cmd lib (List Address)
  nodes s = done (lib.nodes s.gs_user_info_list) s

  -- The links of an entry, or of the head, which is always there, are read or written.
  abbrev pub touch : Option Address → Cmd lib (Unit {0})
  touch none s = done tt s
  touch (some p) s = and_then (load p s) (λ _ s'. done tt s')

  abbrev pub unlink : Address → Cmd lib (Unit {0})
  unlink p s = done tt (record s { gs_user_info_list = lib.list_del p s.gs_user_info_list })

  abbrev pub link : Address → Cmd lib (Unit {0})
  link p s = done tt (record s { gs_user_info_list = lib.list_add_tail p s.gs_user_info_list })

  -- The entry, which must be allocated, and its two neighbours are written.
  abbrev pub list_del : Address → Cmd lib (Unit {0})
  list_del p =
      touch (some p) >> (nodes >>= λ ps. touch (prev_in p ps) >> (touch (next_in p ps) >> unlink p))

  -- The entry and the last one are written.
  abbrev pub list_add_tail : Address → Cmd lib (Unit {0})
  list_add_tail p = touch (some p) >> (nodes >>= λ ps. touch (last_in ps) >> link p)

  -- The entry that the links of this one, which must be allocated, lead to; NULL is the head.
  abbrev pub next_entry : Address → Cmd lib Address
  next_entry p =
      touch (some p) >> λ s. done (entry_or_null (next_in p (lib.nodes s.gs_user_info_list))) s

  -- The run ends, without a fault, in `P`.
  abbrev pub Ends : {A : Type 0} → (A → Store lib → Type 0) → Run lib A → Type 0
  Ends P (done a s) = P a s
  Ends P fault = ⊥
