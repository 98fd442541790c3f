-- ===== src/Xdr/Linked/Fuel.antt =====
-- The bytes that are left are enough fuel for the linked lists: on fewer bytes than fuel, unpacking ends,
-- and what it reads does not depend on the fuel.
use perennial.Prelude.{ℕ, zero, suc, arith, length}
use perennial.Xdr.{Unpacking}
use perennial.Xdr.Decodes.{
  Decodes, Decodes-pure, Decodes-raise, Decodes-if, Decodes-bind, Decodes-uint_bind, Follows,
  Follows-refl, Follows-bind, Follows-uint_bind,
}
use perennial.Xdr.Linked.{
  Linked, unpack_nodes, unpack_next, unpack_linked, unpack_whole, unpack_whole_next,
}

module _ {ℓ} {A : Type ℓ} where
  Decodes-nodes :
      {k : ℕ} (v : Unpacking (Linked A)) → Decodes k v → (n : ℕ) → Decodes k (unpack_nodes v n)
  unfolding unpack_nodes
  Decodes-nodes v h zero = Decodes-pure _
  Decodes-nodes v h (suc n) =
      Decodes-bind _ _ h λ l. Decodes-bind _ _ (Decodes-nodes v h n) λ ns. Decodes-pure _

  -- The number in front of an array makes room for one more level.
  Decodes-next : {k : ℕ} (v : Unpacking (Linked A)) → Decodes k v → Decodes (suc k) (unpack_next v)
  unfolding unpack_next
  Decodes-next v h =
      Decodes-bind _ _ (Decodes-uint_bind _ (Decodes-nodes v h))
        λ ns. Decodes-if _ _ _ Decodes-raise (Decodes-pure ns)

  Decodes-linked :
      (f : ℕ) (u : Unpacking A) → ((k : ℕ) → Decodes k u) → Decodes f (unpack_linked f u)
  unfolding unpack_linked
  Decodes-linked zero u h = record {
    shrinks = λ b r l e. cc;
    ends = λ b fits. absurd (omega (arith, fits));
  }
  Decodes-linked (suc f) u h =
      Decodes-bind _ _ (h (suc f))
        λ a. Decodes-bind _ _ (Decodes-next _ (Decodes-linked f u h)) λ ns. Decodes-pure _

  Follows-nodes :
      {k k' : ℕ} (v v' : Unpacking (Linked A))
      → Decodes k' v
      → Follows k v v'
      → (n : ℕ) → Follows k (unpack_nodes v n) (unpack_nodes v' n)
  unfolding unpack_nodes
  Follows-nodes v v' d h zero = Follows-refl _
  Follows-nodes v v' d h (suc n) = Follows-bind _ _ _ _ d h λ l.
      Follows-bind _ _ _ _ (Decodes-nodes v d n) (Follows-nodes v v' d h n) λ ns. Follows-refl _

  Follows-next :
      {k k' : ℕ} (v v' : Unpacking (Linked A))
      → Decodes k' v
      → Follows k v v'
      → Follows (suc k) (unpack_next v) (unpack_next v')
  unfolding unpack_next
  Follows-next v v' d h =
      Follows-bind _ _ _ _ (Decodes-uint_bind _ (Decodes-nodes v d))
        (Follows-uint_bind _ _ (Follows-nodes v v' d h)) λ ns. Follows-refl _

  Follows-linked :
      (f g : ℕ) (u : Unpacking A)
      → ((k : ℕ) → Decodes k u)
      → Follows g (unpack_linked f u) (unpack_linked g u)
  unfolding unpack_linked
  Follows-linked zero g u h = record { follows = λ b x fits e. cc }
  Follows-linked (suc f) zero u h = record { follows = λ b x fits e. absurd (omega (arith, fits)) }
  Follows-linked (suc f) (suc g) u h = Follows-bind _ _ _ _ (h 0) (Follows-refl u) λ a.
      Follows-bind _ _ _ _ (Decodes-next _ (Decodes-linked f u h))
        (Follows-next _ _ (Decodes-linked f u h) (Follows-linked f g u h)) λ ns. Follows-refl _

  pub Decodes-whole :
      {k : ℕ} (u : Unpacking A) → ((k' : ℕ) → Decodes k' u) → Decodes k (unpack_whole u)
  unfolding unpack_whole
  Decodes-whole u h = record {
    shrinks = λ b. (Decodes-linked (suc (length b)) u h).shrinks b;
    ends = λ b _. (Decodes-linked (suc (length b)) u h).ends b (omega arith);
  }

  pub Decodes-whole_next :
      {k : ℕ} (u : Unpacking A) → ((k' : ℕ) → Decodes k' u) → Decodes k (unpack_whole_next u)
  unfolding unpack_whole_next
  Decodes-whole_next {k} u h =
      let wide : Decodes (suc k) (unpack_whole_next u) = Decodes-next _ (Decodes-whole u h) in
      record { shrinks = wide.shrinks; ends = λ b fits. wide.ends b (omega (arith, fits)) }

  -- What some fuel reads, pack.py's method reads.
  pub Follows-whole :
      {k : ℕ} (f : ℕ) (u : Unpacking A)
      → ((k' : ℕ) → Decodes k' u)
      → Follows k (unpack_linked f u) (unpack_whole u)
  unfolding unpack_whole
  Follows-whole f u h = record {
    follows = λ b x _. (Follows-linked f (suc (length b)) u h).follows b x (omega arith);
  }
