-- ===== src/Xdr/Linked/RoundTrip.antt =====
-- Reading back a linked list.
use perennial.Prelude.{ℕ, zero, suc, ◌+◌, ◌≤◌, ◌<◌, refl, inl, inr, arith, ltb, Bool-cases}
use perennial.Xdr.{Packing, Unpacking, pack_uint, unpack_uint}
use perennial.Xdr.Reads.{Reads, Reads-pure, Reads-raise, Reads-bind, Reads-last}
use perennial.Xdr.RoundTrip.{Reads-uint}
use perennial.Xdr.Decodes.{Decodes, Follows}
use perennial.Xdr.Linked.{
  Linked, Next, Nodes, node, unset, set, last, more, count, pack_linked, pack_next, pack_nodes,
  unpack_nodes, unpack_next, unpack_linked, unpack_whole, unpack_whole_next,
}
use perennial.Xdr.Linked.Fuel.{Follows-whole}

-- Each element is in `P`.
abbrev mutual
  pub IsLinked {ℓ κ} : {A : Type ℓ} → (A → Type κ) → Linked A → Type κ
  IsLinked P (node a nx) = P a × IsNext P nx

  pub IsNext {ℓ κ} : {A : Type ℓ} → (A → Type κ) → Next A → Type κ
  IsNext P unset = Unit
  IsNext P (set ns) = IsNodes P ns

  pub IsNodes {ℓ κ} : {A : Type ℓ} → (A → Type κ) → Nodes A → Type κ
  IsNodes P last = Unit
  IsNodes P (more l ns) = IsLinked P l × IsNodes P ns

-- The number of elements.
mutual
  weight {ℓ} : {A : Type ℓ} → Linked A → ℕ
  weight (node a nx) = suc (weight_next nx)

  weight_next {ℓ} : {A : Type ℓ} → Next A → ℕ
  weight_next unset = 0
  weight_next (set ns) = weight_nodes ns

  weight_nodes {ℓ} : {A : Type ℓ} → Nodes A → ℕ
  weight_nodes last = 0
  weight_nodes (more l ns) = weight l + weight_nodes ns

Reads-Follows {ℓ} :
    {A : Type ℓ} {p : Packing} {u v : Unpacking A} {a : A}
    → Reads p u a
    → ((k : ℕ) → Follows k u v)
    → Reads p v a
Reads-Follows h g = record {
  reads = λ b b' e.
      let (w, q, r) = h.reads b b' e in (w, q, λ rest. (g _).follows _ _ (below _) (r rest));
}
  where
    below : (n : ℕ) → n < suc n
    below n = omega arith

module _ {ℓ κ} {A : Type ℓ} (P : A → Type κ) (p : A → Packing) (u : Unpacking A)
    (h : (a : A) → P a → Reads (p a) u a) where
  -- The array of at most one element, given its elements.
  Reads-next :
      (v : Unpacking (Linked A)) (ns : Nodes A)
      → Reads (pack_nodes p ns) (unpack_nodes v (count ns)) ns
      → Reads (pack_next p (set ns)) (unpack_next v) ns
  unfolding pack_linked unpack_next
  Reads-next v ns r = elim (Bool-cases (ltb 1 (count ns))) [
    | inl over ↦ rw over (Reads-raise _ ns)
    | inr fits ↦
        let whole =
          Reads-bind (pack_uint (count ns)) (pack_nodes p ns) unpack_uint (unpack_nodes v)
            (count ns) ns (Reads-uint (count ns)) r in
        rw fits (record {
          reads = λ b b' e. let (w, q, t) = whole.reads b b' e in (w, q, λ rest. rw (t rest, fits));
        })
  ]

  mutual
    unfolding pack_linked unpack_linked unpack_nodes weight

    Reads-linked :
        (f : ℕ) (l : Linked A)
        → weight l ≤ f
        → IsLinked P l
        → Reads (pack_linked p l) (unpack_linked f u) l
    Reads-linked zero (node a nx) b c = absurd (omega (arith, b))
    Reads-linked (suc f) (node a unset) b c =
        Reads-bind _ _ _ _ a _ (h a c.0) (record { reads = λ x y e. cc })
    Reads-linked (suc f) (node a (set ns)) b c = Reads-bind _ _ _ _ a _ (h a c.0) (
        Reads-last _ _ (λ ms. node a (set ms)) ns _
          (Reads-next _ ns (Reads-nodes f ns (omega (arith, b)) c.1)) refl)

    Reads-nodes :
        (f : ℕ) (ns : Nodes A)
        → weight_nodes ns ≤ f
        → IsNodes P ns
        → Reads (pack_nodes p ns) (unpack_nodes (unpack_linked f u) (count ns)) ns
    Reads-nodes f last b c = Reads-pure last
    Reads-nodes f (more l ns) b c =
        Reads-bind _ _ _ _ l _ (Reads-linked f l (omega (arith, b)) c.0)
          (Reads-last _ _ (λ ms. more l ms) ns _ (Reads-nodes f ns (omega (arith, b)) c.1) refl)

  module _ (d : (k : ℕ) → Decodes k u) where
    pub Reads-whole : (l : Linked A) → IsLinked P l → Reads (pack_linked p l) (unpack_whole u) l
    Reads-whole l c =
        Reads-Follows (Reads-linked (weight l) l (omega arith) c) λ k. Follows-whole (weight l) u d

    Reads-whole_nodes :
        (ns : Nodes A)
        → IsNodes P ns
        → Reads (pack_nodes p ns) (unpack_nodes (unpack_whole u) (count ns)) ns
    unfolding pack_linked unpack_nodes
    Reads-whole_nodes last c = Reads-pure last
    Reads-whole_nodes (more l ns) c =
        Reads-bind _ _ _ _ l _ (Reads-whole l c.0)
          (Reads-last _ _ (λ ms. more l ms) ns _ (Reads-whole_nodes ns c.1) refl)

    pub Reads-whole_next :
        (ns : Nodes A) → IsNodes P ns → Reads (pack_next p (set ns)) (unpack_whole_next u) ns
    unfolding unpack_whole_next
    Reads-whole_next ns c = Reads-next _ ns (Reads-whole_nodes ns c)

-- Where there is nothing to ask of the elements.
mutual
  pub all_linked {ℓ κ} : {A : Type ℓ} (l : Linked A) → IsLinked {A = A} (λ _. Unit {κ}) l
  all_linked (node a nx) = (tt, all_next nx)

  all_next {ℓ κ} : {A : Type ℓ} (nx : Next A) → IsNext {A = A} (λ _. Unit {κ}) nx
  all_next unset = tt
  all_next (set ns) = all_nodes ns

  pub all_nodes {ℓ κ} : {A : Type ℓ} (ns : Nodes A) → IsNodes {A = A} (λ _. Unit {κ}) ns
  all_nodes last = tt
  all_nodes (more l ns) = (all_linked l, all_nodes ns)
