-- ===== src/Stub.antt =====
-- The shape of the generated client and server methods (client.py and server.py of rfc1813 and rfc1057): what
-- travels is packed on one side and unpacked, to its end, on the other.
use perennial.Prelude.{ℕ, ◌≡◌, refl, String, Bool, ◌||◌, false, str_eq, List, [], ◌∷◌, append-nil}
use perennial.Outcome.{Result, ok, err, xdr_error, ◌>>=◌}
use perennial.Xdr.{Bytes, Packing, Unpacking}
use perennial.Xdr.Reads.{Reads, Reads-message}

-- How the argument or the result of a procedure is packed, and read off the whole data.
pub record Wire (A : Type 0) : Type 0 where
  pub pack : A → Packing
  pub read : Bytes → Result A

-- `unpacker.done()`
abbrev done {ℓ} : {A : Type ℓ} → A → Bytes → Result A
done a [] = ok a
done a (_ ∷ _) = err xdr_error

abbrev pub packed : {A : Type 0} → (A → Packing) → Unpacking A → Wire A
packed p u = record { pack = p; read = λ b. u b >>= λ x. done x.0 x.1 }

-- No argument is `''`, and no result is not looked at.
abbrev pub void : Wire (Unit {0})
void = record { pack = λ _ b. ok b; read = λ b. ok tt }

-- A call of the transport: the number of the procedure and the packed data, and the state of what is
-- behind it.
abbrev pub Transport : Type 0 → Type 0
Transport S = ℕ → Bytes → S → Result (Bytes × S)

-- A method of a client class.
unfoldable pub call_remote :
    {A R S : Type 0} → Wire A → Wire R → ℕ → Transport S → A → S → Result (R × S)
call_remote args res procedure_id call p0 s = do
  data' ← args.pack p0 []
  (reply, s') ← call procedure_id data' s
  r ← res.read reply
  ok (r, s')

-- A handle_ method of a server class, for the method of the subclass. Every one answers MSG_ACCEPTED, 0.
unfoldable pub handle_request :
    {A R S : Type 0}
    → Wire A
    → Wire R
    → (A → S → Result (R × S))
    → Bytes
    → S
    → Result ((ℕ × Bytes) × S)
handle_request args res method packeddata s = do
  p0 ← args.read packeddata
  (r, s') ← method p0 s
  out ← res.pack r []
  ok ((0, out), s')

-- The answer's data.
abbrev pub answered : {S : Type 0} → Result ((ℕ × Bytes) × S) → Result (Bytes × S)
answered m = m >>= λ x. ok (x.0.1, x.1)

-- `k in kwargs`
abbrev pub has_key : String → List String → Bool
has_key k [] = false
has_key k (j ∷ ks) = str_eq j k || has_key k ks

-- What is packed for `a` is read as `a`.
pub record Travels {A : Type 0} (w : Wire A) (a : A) : Type 0 where
  pub travels : (b : Bytes) → w.pack a [] ≡ ok b → w.read b ≡ ok a

pub Travels-packed :
    {A : Type 0} (p : A → Packing) (u : Unpacking A) (a : A)
    → Reads (p a) u a
    → Travels (packed p u) a
Travels-packed p u a h = record {
  travels = λ b e. let whole = rw append-nil at (Reads-message b [] h e) in rw whole refl;
}

pub Travels-void : (a : Unit {0}) → Travels void a
Travels-void a = record { travels = λ b e. refl }

-- A call over a transport that hands the request to the handle_ method is a call of the method.
pub call_remote_local :
    {A R S : Type 0} (args : Wire A) (res : Wire R) (n : ℕ) (call : Transport S)
    (method : A → S → Result (R × S)) (p0 : A) (r : R) (s s' : S) (d d' : Bytes)
    → ((b : Bytes) → call n b s ≡ answered (handle_request args res method b s))
    → Travels args p0
    → Travels res r
    → args.pack p0 [] ≡ ok d
    → res.pack r [] ≡ ok d'
    → method p0 s ≡ ok (r, s')
    → call_remote args res n call p0 s ≡ ok (r, s')
unfolding call_remote handle_request
call_remote_local args res n call method p0 r s s' d d' c t v e f g =
    rw (e, c d, t.travels d e, g, f, v.travels d' f) refl
