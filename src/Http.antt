-- ===== src/Http.antt =====
-- What a handler of the API answers. A request runs in one transaction, so one that aborts leaves the
-- tables as they were.
use infrabox.Prelude.{ℕ, ◌≡◌, Bool, String, arith, true, refl, false}

-- `abort(code, ...)`, or an exception of Python, which flask answers with 500.
pub data Response {ℓ} (A : Type ℓ) : Type ℓ where
  done : A → Response A
  abort : ℕ → String → Response A
  key_error : String → Response A
  index_error assertion_error type_error unbound_local_error lookup_error database_error :
      Response A

module _ {ℓ κ} {A : Type ℓ} {B : Type κ} where
  infixl 5 ◌>>=◌
  abbrev pub ◌>>=◌ : Response A → (A → Response B) → Response B
  done a >>= next = next a
  abort code message >>= next = abort code message
  key_error key >>= next = key_error key
  index_error >>= next = index_error
  assertion_error >>= next = assertion_error
  type_error >>= next = type_error
  unbound_local_error >>= next = unbound_local_error
  lookup_error >>= next = lookup_error
  database_error >>= next = database_error

  -- A request that is done has passed each part.
  pub bind-done :
      (first : Response A) (next : A → Response B) {b : B}
      → (first >>= next) ≡ done b
      → (a : A) × (first ≡ done a) × (next a ≡ done b)
  bind-done (done a) next h = (a, refl, h)
  bind-done (abort code message) next h = ground arith
  bind-done (key_error key) next h = ground arith
  bind-done index_error next h = ground arith
  bind-done assertion_error next h = ground arith
  bind-done type_error next h = ground arith
  bind-done unbound_local_error next h = ground arith
  bind-done lookup_error next h = ground arith
  bind-done database_error next h = ground arith

abbrev pub Guard : Type 0
Guard = Response (Unit {0})

module _ {ℓ} {B : Type ℓ} where
  infixl 5 ◌>>◌
  abbrev pub ◌>>◌ : Guard → Response B → Response B
  first >> next = first >>= λ _. next

-- `if not b: abort(code, message)`
abbrev pub demand : Bool → ℕ → String → Guard
demand true code message = done tt
demand false code message = abort code message

pub demand-done :
    (b : Bool) (code : ℕ) (message : String) → demand b code message ≡ done tt → b ≡ true
demand-done true code message h = refl
demand-done false code message h = ground arith
