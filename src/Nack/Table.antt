-- ===== src/Nack/Table.antt =====
-- The table of pending NACKs of one SSRC (discord/ext/native_voice/client.py): its well-formedness,
-- and what adding, removing and marking entries do to it.
use discord_native_voice.Prelude.{
  ℕ, ◌+◌, ◌≤◌, ◌<◌, ◌≡◌, refl, ◌∙◌, true, false, some, List, [], ◌∷◌, length, elem, IsDistinct,
  nat_eq, ℕ-eq, arith, Option-cases, inl, inr, if◌then◌else◌,
}
use discord_native_voice.Prelude.Dict.{
  get, put, erase, IsUnique, IsUnique-put, IsUnique-erase, get-put, get-erase, length-put-le,
  length-put_old, length-erase-le,
}
use discord_native_voice.Nack.{
  PendingVideoNack, Table, new_nack, add_all, touch, touch_all, erase_all,
}

-- Every entry is under a 16-bit number of its own, and was sent at most 100 times.
pub record IsSound (d : Table) : Type 0 where
  pub unique : IsUnique d
  pub entry : (k : ℕ) (n : PendingVideoNack) → get k d ≡ some n → (k < 65536) × (n.retries ≤ 100)

-- The numbers of a list may be sent once more.
abbrev pub AreFresh : List ℕ → Table → Type 0
AreFresh xs d =
    (s : ℕ) (n : PendingVideoNack) → elem s xs ≡ true → get s d ≡ some n → n.retries < 100

pub erase-IsSound : (k : ℕ) (d : Table) → IsSound d → IsSound (erase k d)
erase-IsSound k d h = record {
  unique = IsUnique-erase k d h.unique;
  entry = λ j n g. ground (arith, get-erase k j d h.unique, h.entry j n);
}

pub erase_all-IsSound : (xs : List ℕ) (d : Table) → IsSound d → IsSound (erase_all xs d)
unfolding erase_all
erase_all-IsSound [] d h = h
erase_all-IsSound (x ∷ xs) d h = erase_all-IsSound xs (erase x d) (erase-IsSound x d h)

pub length-erase_all : (xs : List ℕ) (d : Table) → length (erase_all xs d) ≤ length d
unfolding erase_all
length-erase_all [] d = omega arith
length-erase_all (x ∷ xs) d = omega (arith, length-erase_all xs (erase x d), length-erase-le x d)

-- What is still there was there before.
pub get-erase_all :
    (xs : List ℕ) (d : Table) (k : ℕ) (n : PendingVideoNack)
    → IsUnique d
    → get k (erase_all xs d) ≡ some n
    → get k d ≡ some n
unfolding erase_all
get-erase_all [] d k n u g = g
get-erase_all (x ∷ xs) d k n u g =
    ground (arith, get-erase x k d u, get-erase_all xs (erase x d) k n (IsUnique-erase x d u) g)

pub put-IsSound :
    (k : ℕ) (n : PendingVideoNack) (d : Table)
    → IsSound d
    → k < 65536
    → n.retries ≤ 100
    → IsSound (put k n d)
put-IsSound k n d h small few = record {
  unique = IsUnique-put k n d h.unique;
  entry = λ j m g. ground (arith, get-put k j n d, h.entry j m);
}

pub add_all-IsSound :
    (xs : List ℕ) (d : Table)
    → ((s : ℕ) → elem s xs ≡ true → s < 65536)
    → IsSound d
    → IsSound (add_all xs d)
unfolding add_all elem
add_all-IsSound [] d small h = h
add_all-IsSound (x ∷ xs) d small h =
    add_all-IsSound xs (put x new_nack d) (λ s e. small s (ground arith))
      (put-IsSound x new_nack d h (small x (ground arith)) (omega arith))

pub length-add_all : (xs : List ℕ) (d : Table) → length (add_all xs d) ≤ length d + length xs
unfolding add_all
length-add_all [] d = omega arith
length-add_all (x ∷ xs) d =
    omega (arith, length-add_all xs (put x new_nack d), length-put-le x new_nack d)

pub get-add_all :
    (xs : List ℕ) (d : Table) (k : ℕ)
    → get k (add_all xs d) ≡ (if elem k xs then some new_nack else get k d)
unfolding add_all elem
get-add_all [] d k = refl
get-add_all (x ∷ xs) d k =
    ground (arith, get-add_all xs (put x new_nack d) k, get-put x k new_nack d)

pub get-touch : (now k j : ℕ) (d : Table) → (nat_eq k j ≡ false) → get j (touch now k d) ≡ get j d
unfolding touch
get-touch now k j d other = elim (Option-cases (get k d)) [
  | inl absent ↦ rw (absent, touch) refl
  | inr (n, found) ↦ rw (found, touch) (get-put k j _ d ∙ rw other refl)
]

pub touch-IsSound :
    (now k : ℕ) (d : Table)
    → IsSound d
    → ((n : PendingVideoNack) → get k d ≡ some n → n.retries < 100)
    → IsSound (touch now k d) × (length (touch now k d) ≡ length d)
unfolding touch
touch-IsSound now k d h fresh = elim (Option-cases (get k d)) [
  | inl absent ↦ rw (absent, touch) (h, refl)
  | inr (n, found) ↦
      rw (found, touch)
        (
          put-IsSound k _ d h (h.entry k n found).0 (omega (arith, fresh n found)),
          length-put_old k _ n d found,
        )
]

differ : (x s : ℕ) (xs : List ℕ) → elem x xs ≡ false → elem s xs ≡ true → nat_eq x s ≡ false
unfolding elem
differ x s [] absent here = cc
differ x s (y ∷ xs) absent here = ground (arith, differ x s xs)

pub touch_all-IsSound :
    (now : ℕ) (xs : List ℕ) (d : Table)
    → IsDistinct xs
    → AreFresh xs d
    → IsSound d
    → IsSound (touch_all now xs d) × (length (touch_all now xs d) ≡ length d)
unfolding touch_all elem
touch_all-IsSound now [] d distinct fresh h = (h, refl)
touch_all-IsSound now (x ∷ xs) d distinct fresh h =
    let (sound, size) = touch-IsSound now x d h (λ n g. fresh x n (ground arith) g) in
    let (sound', size') =
      touch_all-IsSound now xs (touch now x d) distinct.1
        (λ s n e g.
          fresh s n (ground arith)
            (ground (arith, get-touch now x s d, differ x s xs distinct.0 e)))
        sound in
    (sound', size' ∙ size)
