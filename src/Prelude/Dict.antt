-- ===== src/Prelude/Dict.antt =====
-- Python dictionaries keyed by text, in insertion order: an assignment to a key that is there
-- keeps its place, and a new key goes to the end.
use mathlib.Core.Path.{◌≡◌, refl, sym, subst}
use mathlib.Core.Logic.{inl, inr}
use mathlib.Core.Bool.{false, Bool}
use mathlib.Core.List.{List, [], ◌∷◌, ◌++◌}
use mathlib.Core.Option.{Option, none, some, some-injective}
use native.Mathlib.Omega.{arith}
use Prim.Native.String.{String}
use text.Mathlib.Text.{◌==◌ as str_eq}
use text.Mathlib.TextEquality.{eq_iff}
use yt_dlp_api.Prelude.Tests.{if◌then◌else◌, is_some, Bool-cases}
use yt_dlp_api.Prelude.Lists.{member, Distinct}

abbrev pub Dict {ℓ} : Type ℓ → Type ℓ
Dict V = List (String × V)

module _ {ℓ} {V : Type ℓ} where
  -- `d.get(k)`
  abbrev pub lookup : String → Dict V → Option V
  lookup k [] = none
  lookup k ((j, v) ∷ d) = if str_eq j k then some v else lookup k d

  -- `k in d`
  abbrev pub contains : String → Dict V → Bool
  contains k d = is_some (lookup k d)

  -- `d[k] = v`
  abbrev pub insert : String → V → Dict V → Dict V
  insert k v [] = (k, v) ∷ []
  insert k v ((j, w) ∷ d) = if str_eq j k then (j, v) ∷ d else (j, w) ∷ insert k v d

  -- `del d[k]`
  abbrev pub erase : String → Dict V → Dict V
  erase k [] = []
  erase k ((j, w) ∷ d) = let rest = erase k d in if str_eq j k then rest else (j, w) ∷ rest

  -- `list(d.values())`
  abbrev pub values : Dict V → List V
  values [] = []
  values ((j, w) ∷ d) = w ∷ values d

  -- `list(d)`
  abbrev pub keys : Dict V → List String
  keys [] = []
  keys ((j, w) ∷ d) = j ∷ keys d

  pub lookup-insert :
      (k j : String) (v : V) (d : Dict V)
      → lookup j (insert k v d) ≡ (if str_eq k j then some v else lookup j d)
  lookup-insert k j v [] = ground arith
  lookup-insert k j v ((i, w) ∷ d) =
      ground (arith, eq_iff k j, eq_iff i k, eq_iff i j, lookup-insert k j v d)

  pub lookup-erase :
      (k j : String) (d : Dict V) → lookup j (erase k d) ≡ (if str_eq k j then none else lookup j d)
  lookup-erase k j [] = ground arith
  lookup-erase k j ((i, w) ∷ d) =
      ground (arith, eq_iff k j, eq_iff i k, eq_iff i j, lookup-erase k j d)

  pub member-keys : (k : String) (d : Dict V) → member k (keys d) ≡ contains k d
  member-keys k [] = refl
  member-keys k ((j, w) ∷ d) = ground (arith, member-keys k d)

  -- No key twice, as in every Python dictionary.
  abbrev pub IsDict : Dict V → Type 0
  IsDict d = Distinct (keys d)

  pub insert-IsDict : (k : String) (v : V) (d : Dict V) → IsDict d → IsDict (insert k v d)
  insert-IsDict k v [] h = (refl, tt)
  insert-IsDict k v ((j, w) ∷ d) h = ground (
    arith,
    insert-IsDict k v d h.1,
    eq_iff j k,
    eq_iff k j,
    member-keys j d,
    member-keys j (insert k v d),
    lookup-insert k j v d,
  )

  pub erase-IsDict : (k : String) (d : Dict V) → IsDict d → IsDict (erase k d)
  erase-IsDict k [] h = tt
  erase-IsDict k ((j, w) ∷ d) h = ground (
    arith,
    erase-IsDict k d h.1,
    eq_iff j k,
    eq_iff k j,
    member-keys j d,
    member-keys j (erase k d),
    lookup-erase k j d,
  )

  pub erase_absent : (k : String) (d : Dict V) → member k (keys d) ≡ false → erase k d ≡ d
  erase_absent k [] h = refl
  erase_absent k ((j, w) ∷ d) h = ground (arith, erase_absent k d)

  -- The later of two assignments to a key counts.
  pub insert_twice : (k : String) (v w : V) (d : Dict V) → insert k w (insert k v d) ≡ insert k w d
  insert_twice k v w [] = ground (arith, eq_iff k k)
  insert_twice k v w ((j, u) ∷ d) = ground (arith, eq_iff j k, insert_twice k v w d)

  pub keys-insert :
      (k : String) (v : V) (d : Dict V)
      → keys (insert k v d) ≡ (if contains k d then keys d else keys d ++ k ∷ [])
  keys-insert k v [] = refl
  keys-insert k v ((j, w) ∷ d) = ground (arith, eq_iff j k, keys-insert k v d)

-- Every entry meets a predicate of its key and its value.
abbrev pub AllEntries {ℓ κ} : {V : Type ℓ} → (String → V → Type κ) → Dict V → Type κ
AllEntries P [] = Unit
AllEntries P ((k, v) ∷ d) = P k v × AllEntries P d

module _ {ℓ κ} {V : Type ℓ} (P : String → V → Type κ) where
  pub AllEntries-insert :
      (k : String) (v : V) (d : Dict V) → P k v → AllEntries P d → AllEntries P (insert k v d)
  AllEntries-insert k v [] p h = (p, tt)
  AllEntries-insert k v ((j, w) ∷ d) p h = elim (Bool-cases (str_eq j k)) [
    | inl e ↦ rw e (subst (λ i. P i v) (sym ((eq_iff j k).0 e)) p, h.1)
    | inr e ↦ rw e (h.0, AllEntries-insert k v d p h.1)
  ]

  pub AllEntries-erase : (k : String) (d : Dict V) → AllEntries P d → AllEntries P (erase k d)
  AllEntries-erase k [] h = tt
  AllEntries-erase k ((j, w) ∷ d) h = elim (Bool-cases (str_eq j k)) [
    | inl e ↦ rw e (AllEntries-erase k d h.1)
    | inr e ↦ rw e (h.0, AllEntries-erase k d h.1)
  ]

  pub AllEntries-lookup :
      (k : String) (v : V) (d : Dict V) → AllEntries P d → lookup k d ≡ some v → P k v
  AllEntries-lookup k v [] h e = cc
  AllEntries-lookup k v ((j, w) ∷ d) h e = elim (Bool-cases (str_eq j k)) [
    | inl hit ↦
        subst (λ i. P i v) ((eq_iff j k).0 hit) (subst (P j) (some-injective _ _ (rw hit at e)) h.0)
    | inr miss ↦ AllEntries-lookup k v d h.1 (rw miss at e)
  ]
