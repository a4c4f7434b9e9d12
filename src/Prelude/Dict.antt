-- ===== src/Prelude/Dict.antt =====
-- Python's `dict`: an association list in insertion order, whose keys have an `Eq` instance.
use discord_native_voice.Prelude.Tests.{Eq, nat_eq, ◌==◌, if◌then◌else◌, Bool-cases}
use discord_native_voice.Prelude.Lists.{length}
use Prim.Native.Nat.{ℕ, ◌+◌, ◌≤◌}
use mathlib.Core.Path.{◌≡◌, refl, sym, ◌∙◌, subst}
use mathlib.Core.Logic.{◌↔◌, inl, inr}
use mathlib.Core.Bool.{Bool, true, false, ◌&&◌}
use mathlib.Core.Option.{Option, none, some}
use mathlib.Core.List.{List, [], ◌∷◌}
use native.Mathlib.Omega.{arith}

abbrev pub Dict {ℓ κ} : Type ℓ → Type κ → Type (ℓ ⊔ κ)
Dict K V = List (K × V)

module _ {ℓ κ} {K : Type ℓ} {V : Type κ} ⦃e : Eq K⦄ where
  -- `d.get(k)`
  unfoldable pub get : K → Dict K V → Option V
  get k [] = none
  get k ((j, v) ∷ d) = if j == k then some v else get k d

  -- `d[k] = v`: an old key keeps its place, a new one goes to the end
  unfoldable pub put : K → V → Dict K V → Dict K V
  put k v [] = (k, v) ∷ []
  put k v ((j, w) ∷ d) = if j == k then (j, v) ∷ d else (j, w) ∷ put k v d

  -- `d.pop(k, None)`, `del d[k]`
  unfoldable pub erase : K → Dict K V → Dict K V
  erase k [] = []
  erase k ((j, v) ∷ d) = if j == k then d else (j, v) ∷ erase k d

  -- `k in d`
  abbrev pub contains : K → Dict K V → Bool
  contains k d = elim (get k d) [ none ↦ false | some _ ↦ true ]

  -- `d.setdefault(k, v)`, without its result
  abbrev pub setdefault : K → V → Dict K V → Dict K V
  setdefault k v d = if contains k d then d else put k v d

  pub get-put :
      (k j : K) (v : V) (d : Dict K V) → get j (put k v d) ≡ (if k == j then some v else get j d)
  unfolding get put
  get-put k j v [] = refl
  get-put k j v ((i, w) ∷ d) =
      ground (arith, get-put k j v d, e.same_iff i k, e.same_iff i j, e.same_iff k j)

  -- No key is listed twice.
  abbrev pub IsUnique : Dict K V → Type κ
  IsUnique [] = Unit
  IsUnique ((k, v) ∷ d) = (get k d ≡ none) × IsUnique d

  pub get-erase_ne : (k j : K) (d : Dict K V) → (k == j) ≡ false → get j (erase k d) ≡ get j d
  unfolding get erase
  get-erase_ne k j [] h = refl
  get-erase_ne k j ((i, w) ∷ d) h =
      ground (arith, get-erase_ne k j d h, e.same_iff i k, e.same_iff i j, e.same_iff k j)

  pub get-erase_self : (k : K) (d : Dict K V) → IsUnique d → get k (erase k d) ≡ none
  unfolding get erase
  get-erase_self k [] h = refl
  get-erase_self k ((i, w) ∷ d) h = ground (arith, get-erase_self k d h.1, e.same_iff i k)

  pub get-erase :
      (k j : K) (d : Dict K V) → IsUnique d → get j (erase k d) ≡ (if k == j then none else get j d)
  get-erase k j d h = elim (Bool-cases (k == j)) [
    | inl same ↦ rw (same, ← (e.same_iff k j).0 same) (get-erase_self k d h)
    | inr other ↦ rw other (get-erase_ne k j d other)
  ]

  pub IsUnique-put : (k : K) (v : V) (d : Dict K V) → IsUnique d → IsUnique (put k v d)
  unfolding get put
  IsUnique-put k v [] h = (refl, tt)
  IsUnique-put k v ((i, w) ∷ d) h =
      ground (arith, IsUnique-put k v d h.1, get-put k i v d, e.same_iff i k, e.same_iff k i)

  pub IsUnique-erase : (k : K) (d : Dict K V) → IsUnique d → IsUnique (erase k d)
  unfolding get erase
  IsUnique-erase k [] h = tt
  IsUnique-erase k ((i, w) ∷ d) h =
      ground (arith, IsUnique-erase k d h.1, get-erase_ne k i d, e.same_iff i k, e.same_iff k i)

  pub length-put_new :
      (k : K) (v : V) (d : Dict K V) → get k d ≡ none → length (put k v d) ≡ length d + 1
  unfolding get put
  length-put_new k v [] h = omega arith
  length-put_new k v ((i, w) ∷ d) h = ground (arith, length-put_new k v d)

  pub length-put_old :
      (k : K) (v w : V) (d : Dict K V) → get k d ≡ some w → length (put k v d) ≡ length d
  unfolding get put
  length-put_old k v w [] h = cc
  length-put_old k v w ((i, u) ∷ d) h = ground (arith, length-put_old k v w d)

  pub length-erase :
      (k : K) (v : V) (d : Dict K V) → get k d ≡ some v → length (erase k d) + 1 ≡ length d
  unfolding get erase
  length-erase k v [] h = cc
  length-erase k v ((i, u) ∷ d) h = ground (arith, length-erase k v d)

  pub length-put-le : (k : K) (v : V) (d : Dict K V) → length (put k v d) ≤ length d + 1
  unfolding put
  length-put-le k v [] = omega arith
  length-put-le k v ((i, w) ∷ d) = ground (arith, length-put-le k v d)

  pub length-erase-le : (k : K) (d : Dict K V) → length (erase k d) ≤ length d
  unfolding erase
  length-erase-le k [] = omega arith
  length-erase-le k ((i, w) ∷ d) = ground (arith, length-erase-le k d)

  pub setdefault_fresh :
      (k : K) (v : V) (d : Dict K V) → get k d ≡ none → setdefault k v d ≡ put k v d
  setdefault_fresh k v d h = rw (h, setdefault, contains) refl

  pub setdefault_taken : (k : K) (v w : V) (d : Dict K V) → get k d ≡ some w → setdefault k v d ≡ d
  setdefault_taken k v w d h = rw (h, setdefault, contains) refl

  -- A predicate of every entry.
  abbrev pub Entries {κ'} : (K → V → Type κ') → Dict K V → Type κ'
  Entries P [] = Unit
  Entries P ((k, v) ∷ d) = P k v × Entries P d

  pub Entries-put {κ'} :
      (P : K → V → Type κ') (k : K) (v : V) (d : Dict K V)
      → Entries P d
      → P k v
      → ((j : K) → (j == k) ≡ true → P j v)
      → Entries P (put k v d)
  unfolding put
  Entries-put P k v [] h p q = (p, tt)
  Entries-put P k v ((i, w) ∷ d) h p q = elim (Bool-cases (i == k)) [
    | inl same ↦ rw same (q i same, h.1)
    | inr other ↦ rw other (h.0, Entries-put P k v d h.1 p q)
  ]

  pub Entries-erase {κ'} :
      (P : K → V → Type κ') (k : K) (d : Dict K V) → Entries P d → Entries P (erase k d)
  unfolding erase
  Entries-erase P k [] h = tt
  Entries-erase P k ((i, w) ∷ d) h = elim (Bool-cases (i == k)) [
    | inl same ↦ rw same h.1
    | inr other ↦ rw other (h.0, Entries-erase P k d h.1)
  ]

  pub Entries-get {κ'} :
      (P : K → V → Type κ') (Q : V → Type κ') (k : K) (v : V) (d : Dict K V)
      → Entries P d
      → get k d ≡ some v
      → ((j : K) (w : V) → (j == k) ≡ true → some w ≡ some v → P j w → Q v)
      → Q v
  unfolding get
  Entries-get P Q k v [] h g f = cc
  Entries-get P Q k v ((i, w) ∷ d) h g f = elim (Bool-cases (i == k)) [
    | inl same ↦ f i w same (rw same at g) h.0
    | inr other ↦ Entries-get P Q k v d h.1 (rw other at g) f
  ]

-- Pairs of numbers as keys.
abbrev pub pair_same : ℕ × ℕ → ℕ × ℕ → Bool
pair_same (a, b) (c, d) = nat_eq a c && nat_eq b d

pub pair_same_iff : (j k : ℕ × ℕ) → (pair_same j k ≡ true) ↔ (j ≡ k)
pair_same_iff (a, b) (c, d) = ground arith

instance abbrev pub Pair-eq : Eq (ℕ × ℕ)
Pair-eq = record { same = pair_same; same_iff = pair_same_iff }

-- Every entry of a dictionary has a property.
abbrev pub EveryEntry : {K V : Type 0} ⦃e : Eq K⦄ → (V → Type 0) → Dict K V → Type 0
EveryEntry {K} {V} P d = (k : K) (v : V) → get k d ≡ some v → P v

pub EveryEntry-put :
    {K V : Type 0} ⦃e : Eq K⦄ (P : V → Type 0) (k : K) (v : V) (d : Dict K V)
    → EveryEntry P d
    → P v
    → EveryEntry P (put k v d)
EveryEntry-put P k v d h p j w g = elim (Bool-cases (k == j)) [
  | inl same ↦
      let e : some v ≡ some w = sym (get-put k j v d ∙ rw same refl) ∙ g in
      subst P (some_inj v w e) p
  | inr other ↦ h j w (sym (get-put k j v d ∙ rw other refl) ∙ g)
]
  where
    some_inj : {A : Type 0} (a b : A) → some a ≡ some b → a ≡ b
    some_inj a b e = cc
