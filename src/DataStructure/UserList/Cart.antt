-- ===== src/DataStructure/UserList/Cart.antt =====
-- `print_shopping_cart` never reads past an array, and its buffer of 128 bytes holds the whole cart.
use mathlib.Core.List.{append_assoc, append-nil}
use linux_kernel_samples.Base.{
  ℕ, zero, suc, ◌+◌, ◌-◌, ◌*◌, ◌≤◌, ◌<◌, ◌≡◌, refl, Option, none, some, List, [], ◌∷◌, ◌++◌, arith,
  ◌==◌, if◌then◌else◌,
}
use linux_kernel_samples.DataStructure.UserList.Text.{Text, codes, length, take-all, scnprintf}
use linux_kernel_samples.DataStructure.UserList.Memory.{UserInfo}
use linux_kernel_samples.DataStructure.UserList.Users.{
  n_food_codes, max_cart_size, get_elem?, get_food_name, cart_from,
}
use linux_kernel_samples.DataStructure.UserList.Building.{AllBelow, IsCart, IsUser}

-- What stands before item `i`.
abbrev separator : ℕ → Text
separator i = if i == 0 then [] else codes ", "

abbrev prepend : Text → Option Text → Option Text
prepend a none = none
prepend a (some b) = some (a ++ b)

abbrev name_at : List ℕ → ℕ → Option Text
name_at [] i = none
name_at (food ∷ foods) zero = get_food_name food
name_at (food ∷ foods) (suc i) = name_at foods i

abbrev joined_step : Text → Option Text → Option Text → Option Text
joined_step sep none rest = none
joined_step sep (some name) rest = prepend (sep ++ name) rest

-- The names of the items from number `i` on, separated by commas, with no bound on the length.
pub joined : ℕ → ℕ → List ℕ → Option Text
joined zero i foods = some []
joined (suc left) i foods = joined_step (separator i) (name_at foods i) (joined left (i + 1) foods)

length-append : (a b : Text) → length (a ++ b) ≡ length a + length b
length-append [] b = omega arith
length-append (x ∷ a) b = omega (arith, length-append a b)

separator-le : (i : ℕ) → length (separator i) ≤ 2
separator-le zero = omega arith
separator-le (suc i) = ground arith

-- Every food has a name, of ten bytes at most.
get_food_name-le :
    (food : ℕ)
    → food < n_food_codes
    → (name : Text) × (get_food_name food ≡ some name) × (length name ≤ 10)
unfolding get_food_name
get_food_name-le zero h = (codes "banana", refl, omega arith)
get_food_name-le (suc zero) h = (codes "kiwi", refl, omega arith)
get_food_name-le (suc (suc zero)) h = (codes "strawberry", refl, omega arith)
get_food_name-le (suc (suc (suc zero))) h = (codes "bread", refl, omega arith)
get_food_name-le (suc (suc (suc (suc zero)))) h = (codes "milk", refl, omega arith)
get_food_name-le (suc (suc (suc (suc (suc zero))))) h = (codes "ham", refl, omega arith)
get_food_name-le (suc (suc (suc (suc (suc (suc n)))))) h = absurd (omega arith)

-- What item `i` of a cart is.
record Item (foods : List ℕ) (i : ℕ) : Type 0 where
  food : ℕ
  name : Text
  food_at : get_elem? foods i ≡ some food
  name_of : get_food_name food ≡ some name
  named : name_at foods i ≡ some name
  short : length name ≤ 10

find-Item : (foods : List ℕ) (i : ℕ) → AllBelow n_food_codes foods → i < length foods → Item foods i
find-Item [] i all h = absurd (omega arith)
find-Item (food ∷ foods) zero all h =
    let (name, e, short) = get_food_name-le food all.0 in
    record { food = food; name = name; food_at = refl; name_of = e; named = e; short = short }
find-Item (food ∷ foods) (suc i) all h =
    let rest = find-Item foods i all.1 (omega arith) in
    record {
      food = rest.food;
      name = rest.name;
      food_at = rest.food_at;
      name_of = rest.name_of;
      named = rest.named;
      short = rest.short;
    }

cart_from-joined :
    (left i : ℕ) (u : UserInfo) (cart : Text)
    → IsCart u
    → i + left ≤ max_cart_size
    → length cart + 12 * left ≤ 127
    → (t : Text) × (joined left i u.shopping_cart ≡ some t)
      × (cart_from left i u cart ≡ some (cart ++ t))
      × (length t ≤ 12 * left)
unfolding cart_from joined
cart_from-joined zero i u cart c le fits = ([], refl, rw append-nil refl, omega arith)
cart_from-joined (suc left) i u cart c le fits =
    let item = find-Item u.shopping_cart i c.foods (omega (arith, c.room)) in
    let piece : Text = separator i ++ item.name in
    let size : length piece ≤ 12 =
      omega (arith, length-append (separator i) item.name, separator-le i, item.short) in
    let whole : scnprintf (128 - length cart) piece ≡ piece =
      take-all (128 - length cart - 1) piece (omega arith) in
    let (t, spec, code, short) =
      cart_from-joined left (i + 1) u (cart ++ piece) c (omega arith)
        (omega (arith, length-append cart piece)) in
    (
      piece ++ t,
      rw (item.named, spec),
      rw (item.food_at, item.name_of, whole, code, append_assoc cart piece t),
      omega (arith, length-append piece t),
    )

-- For a user with a proper cart, the loop of `print_shopping_cart` reads no array out of bounds, its
-- buffer is never cut short, and it ends with the names of all the items, in 120 bytes at most.
pub print_cart-joined :
    (u : UserInfo)
    → IsUser u
    → (t : Text) × (joined u.n_cart_items 0 u.shopping_cart ≡ some t)
      × (cart_from u.n_cart_items 0 u [] ≡ some t)
      × (length t ≤ 120)
print_cart-joined u ok =
    let (t, spec, code, short) =
      cart_from-joined u.n_cart_items 0 u [] ok.cart (omega (arith, ok.items))
        (omega (arith, ok.items)) in
    (t, spec, code, omega (arith, ok.items))
