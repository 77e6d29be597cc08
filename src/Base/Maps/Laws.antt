-- ===== src/Base/Maps/Laws.antt =====
-- The laws of the maps without a test: what an operation stores, keeps, and where a result is from.
use mathlib.Core.Path.{◌≡◌, refl, sym, ◌∙◌, ap}
use mathlib.Core.Logic.{◌≢◌, ◌⊎◌, inl, inr}
use mathlib.Core.Bool.{true, false}
use mathlib.Core.List.{List, [], ◌∷◌}
use mathlib.Core.Option.{Option, none, some, some-injective}
use rtsp_server.Base.Tests.{if◌then◌else◌, Bool-cases}
use rtsp_server.Base.Maps.{
  Eq, lookup, insert, emplace, erase, lookup-insert, lookup-erase, lookup-emplace_new,
}

module _ {ℓ} {K : Type ℓ} ⦃e : Eq K⦄ where
  beq_self : (k : K) → e.beq k k ≡ true
  beq_self k = (e.beq_iff k k).1 refl

  beq_ne : (k j : K) → k ≢ j → e.beq k j ≡ false
  beq_ne k j ne = elim (Bool-cases (e.beq k j)) [
    | inl same ↦ absurd (ne ((e.beq_iff k j).0 same))
    | inr other ↦ other
  ]

  test_inv {κ} :
      {V : Type κ} (k j : K) (x y z : Option V)
      → (if e.beq k j then x else y) ≡ z
      → ((k ≡ j) × (x ≡ z)) ⊎ ((k ≢ j) × (y ≡ z))
  test_inv k j x y z h = elim (Bool-cases (e.beq k j)) [
    | inl same ↦ inl ((e.beq_iff k j).0 same, rw same at h)
    | inr other ↦ inr ((λ q. cc (sym other ∙ (e.beq_iff k j).1 q)), rw other at h)
  ]

module _ {ℓ κ} {K : Type ℓ} {V : Type κ} ⦃e : Eq K⦄ where
  pub lookup-emplace_self :
      (k : K) (v : V) (m : List (K × V)) → lookup k m ≡ none → lookup k (emplace k v m) ≡ some v
  lookup-emplace_self k v m h = rw (lookup-emplace_new k k v m h, beq_self k)

  emplace_past :
      (i k : K) (x v : V) (m : List (K × V))
      → e.beq i k ≡ false
      → emplace k v ((i, x) ∷ m) ≡ (i, x) ∷ emplace k v m
  unfolding emplace
  emplace_past i k x v m other = rw (other, emplace) refl

  insert_past :
      (i k : K) (x v : V) (m : List (K × V))
      → e.beq i k ≡ false
      → insert k v ((i, x) ∷ m) ≡ (i, x) ∷ insert k v m
  unfolding insert
  insert_past i k x v m other = rw (other, insert) refl

  pub insert-emplace :
      (k : K) (v w : V) (m : List (K × V))
      → lookup k m ≡ none
      → insert k w (emplace k v m) ≡ emplace k w m
  unfolding lookup insert emplace
  insert-emplace k v w [] h = rw (beq_self k, insert) refl
  insert-emplace k v w ((i, x) ∷ m) h = elim (Bool-cases (e.beq i k)) [
    | inl same ↦ absurd (cc (rw same at h))
    | inr other ↦
        ap (insert k w) (emplace_past i k x v m other)
        ∙ insert_past i k x w (emplace k v m) other
        ∙ ap (λ l. (i, x) ∷ l) (insert-emplace k v w m (rw other at h))
        ∙ sym (emplace_past i k x w m other)
  ]

  pub lookup-emplace_ne :
      (k j : K) (v : V) (m : List (K × V))
      → lookup k m ≡ none
      → k ≢ j
      → lookup j (emplace k v m) ≡ lookup j m
  lookup-emplace_ne k j v m h ne = rw (lookup-emplace_new k j v m h, beq_ne k j ne)

  pub lookup-emplace_inv :
      (k j : K) (v w : V) (m : List (K × V))
      → lookup k m ≡ none
      → lookup j (emplace k v m) ≡ some w
      → ((k ≡ j) × (v ≡ w)) ⊎ (lookup j m ≡ some w)
  lookup-emplace_inv k j v w m h found =
      elim (test_inv k j (some v) (lookup j m) (some w)
        (sym (lookup-emplace_new k j v m h) ∙ found)) [
          | inl (same, q) ↦ inl (same, some-injective v w q)
          | inr (other, q) ↦ inr q
        ]

  pub lookup-insert_self : (k : K) (v : V) (m : List (K × V)) → lookup k (insert k v m) ≡ some v
  lookup-insert_self k v m = rw (lookup-insert k k v m, beq_self k)

  pub lookup-insert_ne :
      (k j : K) (v : V) (m : List (K × V)) → k ≢ j → lookup j (insert k v m) ≡ lookup j m
  lookup-insert_ne k j v m ne = rw (lookup-insert k j v m, beq_ne k j ne)

  pub lookup-insert_inv :
      (k j : K) (v w : V) (m : List (K × V))
      → lookup j (insert k v m) ≡ some w
      → ((k ≡ j) × (v ≡ w)) ⊎ ((k ≢ j) × (lookup j m ≡ some w))
  lookup-insert_inv k j v w m found =
      elim (test_inv k j (some v) (lookup j m) (some w) (sym (lookup-insert k j v m) ∙ found)) [
        | inl (same, q) ↦ inl (same, some-injective v w q)
        | inr (other, q) ↦ inr (other, q)
      ]

  pub lookup-erase_self : (k : K) (m : List (K × V)) → lookup k (erase k m) ≡ none
  lookup-erase_self k m = rw (lookup-erase k k m, beq_self k)

  pub lookup-erase_ne : (k j : K) (m : List (K × V)) → k ≢ j → lookup j (erase k m) ≡ lookup j m
  lookup-erase_ne k j m ne = rw (lookup-erase k j m, beq_ne k j ne)

  pub lookup-erase_inv :
      (k j : K) (w : V) (m : List (K × V))
      → lookup j (erase k m) ≡ some w
      → (k ≢ j) × (lookup j m ≡ some w)
  lookup-erase_inv k j w m found =
      elim (test_inv k j none (lookup j m) (some w) (sym (lookup-erase k j m) ∙ found)) [
        | inl (same, q) ↦ cc
        | inr (other, q) ↦ (other, q)
      ]
