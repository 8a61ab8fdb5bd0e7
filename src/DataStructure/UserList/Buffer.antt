-- ===== src/DataStructure/UserList/Buffer.antt =====
-- A `char` array of the sample, byte by byte, and the text that it holds up to its first NUL.
use linux_kernel_samples.Base.{
  ℕ, zero, suc, ◌-◌, ◌<◌, ◌≤◌, ◌≡◌, refl, ap, Bool, Bool-cases, inl, inr, true, false, not, ◌&&◌,
  ◌||◌, Option, none, some, List, [], ◌∷◌, ◌++◌, arith, ◌==◌, if◌then◌else◌,
}
use linux_kernel_samples.DataStructure.UserList.Text.{Text, length, take, same_text, scnprintf}

abbrev pub Bytes : Type 0
Bytes = List ℕ

abbrev pub has_nul : Bytes → Bool
has_nul [] = false
has_nul (b ∷ bs) = (b == 0) || has_nul bs

-- The bytes before the first NUL.
abbrev pub until_nul : Bytes → Text
until_nul [] = []
until_nul (b ∷ bs) = if b == 0 then [] else b ∷ until_nul bs

abbrev prepend : ℕ → Option Text → Option Text
prepend b none = none
prepend b (some t) = some (b ∷ t)

-- What `%s` reads from a buffer; `none` would be a read past its end.
unfoldable pub c_string : Bytes → Option Text
c_string [] = none
c_string (b ∷ bs) = let rest = prepend b (c_string bs) in if b == 0 then some [] else rest

-- `!strcmp(buffer, text)`; `none` would be a read past the end of the buffer. No byte of a text is 0.
unfoldable pub strcmp : Bytes → Text → Option Bool
strcmp [] text = none
strcmp (b ∷ bs) [] = some (b == 0)
strcmp (b ∷ bs) (c ∷ text) =
    let rest = strcmp bs text in if (b == c) && not (b == 0) then rest else some false

-- These bytes go to the start of the buffer; `none` would be a write past its end.
unfoldable pub overwrite : Bytes → Bytes → Option Bytes
overwrite [] old = some old
overwrite (b ∷ bs) [] = none
overwrite (b ∷ bs) (o ∷ old) = prepend b (overwrite bs old)

-- `scnprintf(buffer, size, …)` with the NUL that it writes.
unfoldable pub scnprintf_into : ℕ → Text → Bytes → Option Bytes
unfolding overwrite
scnprintf_into size text old = overwrite (scnprintf size text ++ 0 ∷ []) old

pub c_string-until_nul : (bs : Bytes) → has_nul bs ≡ true → c_string bs ≡ some (until_nul bs)
unfolding c_string
c_string-until_nul [] h = absurd (cc)
c_string-until_nul (b ∷ bs) h = elim (Bool-cases (b == 0)) [
  | inl e ↦ rw e
  | inr e ↦ rw (e, c_string-until_nul bs (rw e at h))
]

pub strcmp-same_text :
    (bs : Bytes) (text : Text)
    → has_nul bs ≡ true
    → strcmp bs text ≡ some (same_text (until_nul bs) text)
unfolding strcmp same_text
strcmp-same_text [] text h = absurd (cc)
strcmp-same_text (b ∷ bs) [] h = ground arith
strcmp-same_text (b ∷ bs) (c ∷ text) h = ground (arith, strcmp-same_text bs text)

abbrev pub no_nul : Text → Bool
no_nul [] = true
no_nul (b ∷ bs) = not (b == 0) && no_nul bs

pub no_nul-append : (a b : Text) → no_nul a ≡ true → no_nul b ≡ true → no_nul (a ++ b) ≡ true
no_nul-append [] b ha hb = hb
no_nul-append (x ∷ a) b ha hb = ground (arith, no_nul-append a b)

no_nul-take : (n : ℕ) (a : Text) → no_nul a ≡ true → no_nul (take n a) ≡ true
no_nul-take zero a h = refl
no_nul-take (suc n) [] h = refl
no_nul-take (suc n) (x ∷ a) h = ground (arith, no_nul-take n a)

length-take : (n : ℕ) (a : Text) → length (take n a) ≤ n
length-take zero a = omega arith
length-take (suc n) [] = omega arith
length-take (suc n) (x ∷ a) = omega (arith, length-take n a)

-- What a buffer holds after a text has been written to it with its NUL.
pub record Holding (old : Bytes) (text : Text) (bs : Bytes) : Type 0 where
  pub holds : until_nul bs ≡ text
  pub ends : has_nul bs ≡ true
  pub room : length bs ≡ length old

write-Holding :
    (text : Text) (old : Bytes)
    → no_nul text ≡ true
    → length text < length old
    → (bs : Bytes) × (overwrite (text ++ 0 ∷ []) old ≡ some bs) × Holding old text bs
unfolding overwrite
write-Holding [] [] h lt = absurd (omega arith)
write-Holding [] (o ∷ old) h lt = (0 ∷ old, refl, record { holds = refl; ends = refl; room = refl })
write-Holding (c ∷ text) [] h lt = absurd (omega arith)
write-Holding (c ∷ text) (o ∷ old) h lt =
    let (bs, e, at) = write-Holding text old (ground arith) (omega arith) in
    let real : (c == 0) ≡ false = ground arith in
    (
      c ∷ bs,
      rw e refl,
      record {
        holds = rw (real, at.holds) refl;
        ends = rw (real, at.ends) refl;
        room = ap (λ (n : ℕ). suc n) at.room;
      },
    )

-- `scnprintf` into a buffer of the size that it is told keeps inside, and leaves the text there, cut
-- to leave room for its NUL.
pub scnprintf-Holding :
    (size : ℕ) (text : Text) (old : Bytes)
    → no_nul text ≡ true
    → length old ≡ suc size
    → (bs : Bytes) × (scnprintf_into (suc size) text old ≡ some bs)
      × Holding old (scnprintf (suc size) text) bs
unfolding scnprintf_into
scnprintf-Holding size text old h e =
    let one : suc size - 1 ≡ size = omega arith in
    rw one (
      write-Holding (take size text) old (no_nul-take size text h)
        (omega (arith, e, length-take size text)))
