-- ===== src/Xdr/Reads.antt =====
-- Reading back what was packed: one rule for each way in which the codecs are put together.
use perennial.Prelude.{
  ap, ◌∙◌, ◌≡◌, refl, inl, inr, Bool, true, false, [], ◌++◌, append-nil, append_assoc,
  if◌then◌else◌, Bool-cases,
}
use perennial.Outcome.{ok, >>=-eq-ok}
use perennial.Xdr.{Bytes, Packing, skip, ◌⨾◌, raise, Unpacking, pure, ◌>>=◌}

-- Where `p` succeeds it appends some bytes, and `u` reads `a` off those bytes, whatever follows.
pub record Reads {ℓ} {A : Type ℓ} (p : Packing) (u : Unpacking A) (a : A) : Type ℓ where
  pub reads :
      (b b' : Bytes)
      → p b ≡ ok b'
      → (w : Bytes) × (b' ≡ b ++ w) × ((rest : Bytes) → u (w ++ rest) ≡ ok (a, rest))

module _ {ℓ} {A : Type ℓ} where
  pub Reads-pure : (a : A) → Reads skip (pure a) a
  Reads-pure a = record { reads = λ b b' h. ([], cc (append-nil b), λ rest. refl) }

  pub Reads-raise : (u : Unpacking A) (a : A) → Reads raise u a
  Reads-raise u a = record { reads = λ b b' h. cc }

  pub Reads-if :
      (t : Bool) (p q : Packing) (u v : Unpacking A) (a : A)
      → (t ≡ true → Reads p u a)
      → (t ≡ false → Reads q v a)
      → Reads (if t then p else q) (if t then u else v) a
  Reads-if true p q u v a h k = h refl
  Reads-if false p q u v a h k = k refl

  pub Reads-bind {κ} :
      {B : Type κ} (p q : Packing) (u : Unpacking A) (k : A → Unpacking B) (a : A) (c : B)
      → Reads p u a
      → Reads q (k a) c
      → Reads (p ⨾ q) (u >>= k) c
  Reads-bind p q u k a c h g = record {
    reads = λ b b' e.
        let (b₁, e₁, e₂) = >>=-eq-ok (p b) q e in
        let (w, p₁, r₁) = h.reads b b₁ e₁ in
        let (v, p₂, r₂) = g.reads b₁ b' e₂ in
        (
          w ++ v,
          p₂ ∙ ap (λ x. x ++ v) p₁ ∙ append_assoc b w v,
          λ rest. rw (append_assoc, r₁ (v ++ rest)) (r₂ rest),
        );
  }

-- A message packed from an empty buffer is read back, and what follows it is left.
pub Reads-message {ℓ} :
    {A : Type ℓ} {p : Packing} {u : Unpacking A} {a : A} (w rest : Bytes)
    → Reads p u a
    → p [] ≡ ok w
    → u (w ++ rest) ≡ ok (a, rest)
Reads-message w rest h e = let (w', q, r) = h.reads [] w e in rw q (r rest)

-- The last step of a record, and a step that reads nothing.
pub Reads-last {ℓ κ} :
    {A : Type ℓ} {C : Type κ} (p : Packing) (u : Unpacking A) (g : A → C) (a : A) (c : C)
    → Reads p u a
    → g a ≡ c
    → Reads p (u >>= λ x. pure (g x)) c
Reads-last p u g a c h e = record {
  reads = λ b b' q. let (w, q', r) = h.reads b b' q in (w, q', λ rest. rw (r rest, e));
}

pub Reads-done {ℓ} : {C : Type ℓ} (a c : C) → a ≡ c → Reads skip (pure a) c
Reads-done a c e = rw (← e) (Reads-pure a)

-- Reading back through a check that the packer made too.
pub Reads-checked {ℓ} :
    {A : Type ℓ} (t : A → Bool) (p : Packing) (u : Unpacking A) (a : A)
    → (t a ≡ true → Reads p u a)
    → Reads (if t a then p else raise) (u >>= λ x. if t x then pure x else raise) a
Reads-checked t p u a h = elim (Bool-cases (t a)) [
  | inl good ↦ rw good (record {
    reads = λ b b' e. let (w, q, r) = (h good).reads b b' e in (w, q, λ rest. rw (r rest, good));
  })
  | inr bad ↦ rw bad (Reads-raise _ a)
]
